-- ===== src/Game/Reach/Start.antt =====
-- so2_old/GAME/zeos/system.c: where the structures are when the first process runs.
use fib_so.Prelude.{
  ℕ, zero, suc, inl, inr, Bool-cases, ==_iff, ◌+◌, ◌*◌, ◌%◌, ◌≤◌, ◌<◌, ◌≡◌, ◌∙◌, ap, sym, subst,
  refl, true, false, arith, ◌==◌, has, [],
}
use fib_so.ListHead.{Ptr}
use fib_so.Phase2.Kernel.{done, done-injective, list_of}
use fib_so.Game.Kernel.{Layout, Kernel}
use fib_so.Game.Reach.{owner, Node, Sound, IsSound}
use fib_so.Game.Reach.Rotate.{Sound-IsSound}
use fib_so.Game.Boot.{start}
use fib_so.Game.Boot.Queued.{Placed, entries}
use fib_so.Game.Boot.Started.{Started, start-Started}

entries-Node :
    (l : Layout) (n i : ℕ)
    → n + i ≤ 10
    → l.task % 4096 ≡ 0
    → (a : Ptr) → has a (entries l n i) ≡ true
    → Node l a
entries-Node l zero i le aligned a h = absurd (ground arith)
entries-Node l (suc n) i le aligned a h = elim (Bool-cases (a == list_of (l.task + 4096 * i))) [
  | inl e ↦
      let same : a ≡ list_of (l.task + 4096 * i) = (==_iff a (list_of (l.task + 4096 * i))).0 e in
      (omega arith, omega arith, omega arith)
  | inr ne ↦ entries-Node l n (i + 1) (omega arith) aligned a (ground arith)
]

entries-has :
    (l : Layout) (n i j : ℕ)
    → i ≤ j
    → j < i + n
    → has (list_of (l.task + 4096 * j)) (entries l n i) ≡ true
entries-has l zero i j lo hi = absurd (omega arith)
entries-has l (suc n) i j lo hi = elim (Bool-cases (i == j)) [
  | inl e ↦ let same : i ≡ j = (==_iff i j).0 e in rw same (ground arith)
  | inr ne ↦ ground (arith, entries-has l n (i + 1) j (ground arith) (omega arith))
]

-- Those of the eight free structures are not those of the first two.
entries-later :
    (l : Layout) (n i : ℕ) (a : Ptr) → a < l.task + 4096 * i → has a (entries l n i) ≡ false
entries-later l zero i a lt = refl
entries-later l (suc n) i a lt = ground (arith, entries-later l n (i + 1) a (omega arith))

module _ (l : Layout) (k k' : Kernel) (placed : Placed l) where
  -- When process 1 has entered the kernel.
  Started-Sound :
      Started l k k'
      → (e : ℕ) → owner e ≡ l.task + 4096
      → Sound l (record k' { esp = e }) (l.task + 4096) (entries l 8 2) []
  Started-Sound s e here =
      let aligned : l.task % 4096 ≡ 0 = placed.aligned in
      let node0 : Node l (list_of l.task) = (omega arith, omega arith, omega arith) in
      let out : has (list_of l.task) (entries l 8 2) ≡ false =
        entries-later l 8 2 (list_of l.task) (omega arith) in
      let top : owner (l.task + 4 * 1022) ≡ l.task = omega arith in
      record {
        parts = record {
          queues = s.queues;
          free_node = entries-Node l 8 2 (omega arith) aligned;
          ready_node = λ a i. absurd (ground arith);
          idle_node = rw s.idle node0;
          idle_busy = rw s.idle out;
          idle_stack = λ ne. rw s.idle (ap owner s.idle_stack_pointer ∙ top);
          ready_stack = λ u i ne. absurd (ground arith);
          waiting = λ u i. absurd (ground arith);
        };
        here = here;
        node = (omega arith, omega arith, omega arith);
        not_free = entries-later l 8 2 (list_of (l.task + 4096)) (omega arith);
        not_ready = refl;
        running = s.first_running;
        covered = λ j lt. elim (Bool-cases (j == 0)) [
          | inl z ↦
              let none : l.task + 4096 * j ≡ l.task = ground arith in
              rw (s.idle, none) (ground arith)
          | inr nz ↦ elim (Bool-cases (j == 1)) [
            | inl o ↦
                let one : l.task + 4096 * j ≡ l.task + 4096 = ground arith in
                rw (s.idle, one) (ground arith)
            | inr nj ↦ ground (arith, entries-has l 8 2 j (ground arith) (omega arith))
          ]
        ];
      }

pub start-IsSound :
    (l : Layout) (k k' : Kernel) (e : ℕ)
    → Placed l
    → start l k ≡ done k'
    → owner e ≡ l.task + 4096
    → IsSound l (record k' { esp = e })
start-IsSound l k k' e placed run here =
    let s = start-Started l k placed in
    let same : s.0 ≡ k' = done-injective s.0 k' (sym s.1 ∙ run) in
    Sound-IsSound (Started-Sound l k k' placed (subst (Started l k) same s.2) e here)
