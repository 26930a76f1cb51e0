-- ===== src/Examples/Space.antt =====
-- The address space of a child at concrete page tables.
use fib_so.Prelude.{
  ℕ, zero, suc, ◌+◌, ◌-◌, ◌*◌, ◌%◌, ◌≡◌, ◌≢◌, ◌==◌, ltb, leb, ◌&&◌, if◌then◌else◌, refl, List, [],
  ◌∷◌, arith,
}
use fib_so.Paging.Frames.{PhysMem, free_mark, used_mark}
use fib_so.Paging.Table.{get_frame}
use fib_so.Phase2.Space.{num_pag_data, alloc_data_frames, build_child}
use fib_so.Phase2.Space.Alloc.{Outcome, alloc_data_frames-Outcome}
use fib_so.Phase2.Space.Child.{Built, build_child-Built}
use fib_so.Phase2.Kernel.{Space}
use fib_so.Phase2.Boot.{set_user_pages}
use fib_so.Phase2.Boot.User.{set_user_pages-entries}
use fib_so.Examples.Data.{space}

-- The `n` frames from `f` on, every other one.
abbrev evens : ℕ → ℕ → List ℕ
evens zero f = []
evens (suc n) f = f ∷ evens n (f + 2)

abbrev all_free : PhysMem
all_free f = 0

alloc_data_frames-Outcome_example : Outcome all_free num_pag_data (alloc_data_frames all_free)
alloc_data_frames-Outcome_example = alloc_data_frames-Outcome all_free

build_child-Built_example : Built (evens 20 600) 1 2 space (build_child (evens 20 600) 1 2 space)
unfolding get_frame
build_child-Built_example =
    build_child-Built (evens 20 600) 1 2 space (ground arith) refl (ground arith) (ground arith)
      (λ j h. ground arith)

abbrev empty_space : Space
empty_space = record space { phys = λ f. 0 }

set_user_pages-entries_example :
    ((p : ℕ)
      → (set_user_pages 1 empty_space).tables 1 p ≡ (
          if leb 276 p && ltb p 284
          then (256 + 2 * (p - 276)) * 4096 + 5
          else if leb 256 p && ltb p 276
          then (272 + 2 * (p - 256)) * 4096 + 7
          else 4096 * p + 7))
    × ((e : ℕ) → e ≢ 1 → (set_user_pages 1 empty_space).tables e ≡ (λ p. 4096 * p + 7))
    × ((f : ℕ)
        → (set_user_pages 1 empty_space).phys f
          ≡ (if leb 256 f && ltb f 312 && f % 2 == 0 then used_mark else free_mark))
set_user_pages-entries_example = set_user_pages-entries 1 empty_space (λ f l h. refl)
