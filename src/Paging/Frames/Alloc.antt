-- ===== src/Paging/Frames/Alloc.antt =====
-- so2_old/E1_E2/zeos/mm.c: which frame alloc_frame takes, what free_frame gives back, and the map
-- that init_frames sets up.
use mathlib.Core.Path.{fun_ext}
use fib_so.Prelude.{
  ℕ, zero, suc, ◌+◌, ◌*◌, ◌%◌, ◌≤◌, ◌<◌, ◌≡◌, ◌≢◌, refl, arith, ◌==◌, ltb, if◌then◌else◌, update,
  ap, subst, leb, ◌&&◌, Bool-cases, inl, inr, ==_iff,
}
use fib_so.Prelude.Int.{ℤ, pos, negsuc}
use fib_so.Paging.Frames.{
  PhysMem, free_mark, used_mark, total_pages, num_pag_kernel, mark_range, init_frames, alloc_from,
  alloc_frame, free_frame,
}

-- No frame of the allocator's choice (even, not below `lo`, below `hi`) is free.
abbrev pub NoneFree : PhysMem → ℕ → ℕ → Type 0
NoneFree m lo hi = (j : ℕ) → lo ≤ j → j < hi → j % 2 ≡ 0 → m j ≢ free_mark

-- What a search from `lo` finds.
abbrev pub Search : ℕ → PhysMem → ℤ × PhysMem → Type 0
Search lo m (pos i, m') =
    (lo ≤ i)
    × (i < total_pages)
    × (i % 2 ≡ 0)
    × (m i ≡ free_mark)
    × NoneFree m lo i
    × (m' ≡ update m i used_mark)
Search lo m (negsuc n, m') = (n ≡ 0) × (m' ≡ m) × NoneFree m lo total_pages

NoneFree-step :
    (m : PhysMem) (i hi : ℕ) → i % 2 ≡ 0 → m i ≢ free_mark → NoneFree m (i + 2) hi → NoneFree m i hi
NoneFree-step m i hi even used later j lo lt e = elim (Bool-cases (j == i)) [
  | inl same ↦ rw ((==_iff j i).0 same) used
  | inr other ↦ later j (ground arith) lt e
]

Search-step :
    (m : PhysMem) (i : ℕ) (r : ℤ × PhysMem)
    → i % 2 ≡ 0
    → m i ≢ free_mark
    → Search (i + 2) m r
    → Search i m r
Search-step m i (pos n, m') even used s =
    (omega arith, s.1, s.2, s.3, NoneFree-step m i n even used s.4, s.5)
Search-step m i (negsuc n, m') even used s = (s.0, s.1, NoneFree-step m i total_pages even used s.2)

alloc_from-Search :
    (k i : ℕ) (m : PhysMem) → total_pages ≤ i + 2 * k → i % 2 ≡ 0 → Search i m (alloc_from k i m)
unfolding alloc_from
alloc_from-Search zero i m enough even = (refl, refl, λ j lo hi. absurd (omega arith))
alloc_from-Search (suc k) i m enough even = elim (Bool-cases (ltb i total_pages)) [
  | inl inside ↦ rw inside (elim (Bool-cases (m i == free_mark)) [
    | inl free ↦ rw free (
      omega arith,
      ground arith,
      even,
      (==_iff _ _).0 free,
      λ j lo hi. absurd (omega arith),
      refl,
    )
    | inr used ↦ rw used (
        Search-step m i (alloc_from k (i + 2) m) even (ground arith)
          (alloc_from-Search k (i + 2) m (omega arith) (omega arith)))
  ])
  | inr outside ↦ rw outside (refl, refl, λ j lo hi. absurd (ground arith))
]

-- alloc_frame takes the lowest free even frame from 256 on, marks that frame as used and no other;
-- if every even frame from 256 on is used it returns -1 and changes nothing.
pub alloc_frame-Search : (m : PhysMem) → Search num_pag_kernel m (alloc_frame m)
unfolding alloc_frame
alloc_frame-Search m = alloc_from-Search 385 num_pag_kernel m (omega arith) refl

-- A frame that alloc_frame took, other than 256, is given back by free_frame: the map is as before.
pub free_frame-alloc_frame :
    (m m' : PhysMem) (i : ℕ)
    → alloc_frame m ≡ (pos i, m')
    → i ≢ num_pag_kernel
    → free_frame i m' ≡ m
unfolding free_frame
free_frame-alloc_frame m m' i e ne =
    let s : Search num_pag_kernel m (pos i, m') =
      subst (Search num_pag_kernel m) e (alloc_frame-Search m) in
    fun_ext λ j.
      ground (arith, s.0, s.1, s.3, ap (λ (f : PhysMem). f j) s.5, ap (λ (f : PhysMem). f i) s.5)

-- Frame 256 is the first that alloc_frame takes, and free_frame never gives it back.
alloc_frame-first_leaks :
    (m : PhysMem)
    → m num_pag_kernel ≡ free_mark
    → (alloc_frame m ≡ (pos num_pag_kernel, update m num_pag_kernel used_mark))
      × ((k : PhysMem) → free_frame num_pag_kernel k ≡ k)
unfolding alloc_frame alloc_from free_frame
alloc_frame-first_leaks m free = (ground arith, λ k. refl)

mark_range-mark :
    (n i mark : ℕ) (m : PhysMem) (j : ℕ)
    → mark_range n i mark m j ≡ (if leb i j && ltb j (i + n) then mark else m j)
unfolding mark_range
mark_range-mark zero i mark m j = ground arith
mark_range-mark (suc n) i mark m j =
    ground (arith, mark_range-mark n (i + 1) mark (update m i mark) j)

-- init_frames marks the 256 kernel frames as used and the 768 others as free, whatever the map was.
pub init_frames-mark :
    (m : PhysMem) (j : ℕ)
    → j < total_pages
    → init_frames m j ≡ (if ltb j num_pag_kernel then used_mark else free_mark)
unfolding init_frames
init_frames-mark m j lt = ground (
  arith,
  mark_range-mark num_pag_kernel 0 used_mark (mark_range total_pages 0 free_mark m) j,
  mark_range-mark total_pages 0 free_mark m j,
)
