-- ===== src/Boot/Frames.antt =====
-- zeos/mm.c: which frame alloc_frame takes, and what free_frame gives back.
use fib_so.Prelude.{
  ℕ, zero, suc, ◌+◌, ◌-◌, ◌≤◌, ◌<◌, ◌≡◌, ◌≢◌, refl, arith, ◌==◌, leb, ltb, ◌&&◌, ◌||◌,
  if◌then◌else◌, update, Bool-cases, inl, inr, ==_iff,
}
use fib_so.Prelude.Int.{ℤ, pos, negsuc}
use fib_so.Paging.Frames.{PhysMem, free_mark, used_mark, total_pages}
use fib_so.Boot.{Memory, mark_range, init_frames, alloc_from, alloc_frame}

-- What a search from `lo` for the lowest free frame below 1024 finds.
abbrev pub Lowest : ℕ → PhysMem → ℤ × PhysMem → Type 0
Lowest lo m (pos i, m') =
    (lo ≤ i)
    × (i < total_pages)
    × (m i ≡ free_mark)
    × ((j : ℕ) → lo ≤ j → j < i → m j ≢ free_mark)
    × (m' ≡ update m i used_mark)
Lowest lo m (negsuc n, m') = (m' ≡ m) × ((j : ℕ) → lo ≤ j → j < total_pages → m j ≢ free_mark)

Lowest-step :
    (m : PhysMem) (i : ℕ) (r : ℤ × PhysMem) → m i ≢ free_mark → Lowest (i + 1) m r → Lowest i m r
Lowest-step m i (pos n, m') used s =
    (omega arith, s.1, s.2, (λ j lo hi. ground (arith, s.3 j)), s.4)
Lowest-step m i (negsuc n, m') used s = (s.0, λ j lo hi. ground (arith, s.1 j))

alloc_from-Lowest : (k i : ℕ) (m : PhysMem) → i + k ≡ total_pages → Lowest i m (alloc_from k i m)
unfolding alloc_from
alloc_from-Lowest zero i m e = (refl, λ j lo hi. absurd (omega arith))
alloc_from-Lowest (suc k) i m e = elim (Bool-cases (m i == free_mark)) [
  | inl free ↦
      rw free
        (omega arith, omega arith, (==_iff _ _).0 free, (λ j lo hi. absurd (omega arith)), refl)
  | inr used ↦ rw used (
      Lowest-step m i (alloc_from k (i + 1) m) (ground arith)
        (alloc_from-Lowest k (i + 1) m (omega arith)))
]

-- alloc_frame takes the lowest free frame behind the kernel, marks that frame as used and no other;
-- if none is free it returns -1 and changes nothing.
alloc_frame-Lowest :
    (s : Memory)
    → s.last_kernel ≤ total_pages
    → Lowest s.last_kernel s.phys ((alloc_frame s).0, (alloc_frame s).1.phys)
unfolding alloc_frame
alloc_frame-Lowest s le =
    alloc_from-Lowest (total_pages - s.last_kernel) s.last_kernel s.phys (omega arith)

mark_range-mark :
    (n i mark : ℕ) (m : PhysMem) (j : ℕ)
    → mark_range n i mark m j ≡ (if leb i j && ltb j (i + n) then mark else m j)
unfolding mark_range
mark_range-mark zero i mark m j = ground arith
mark_range-mark (suc n) i mark m j =
    ground (arith, mark_range-mark n (i + 1) mark (update m i mark) j)

-- init_frames marks the kernel's frames, that of the GDT and that of the screen as used, and all
-- others as free.
init_frames-used :
    (s : Memory) (j : ℕ)
    → s.first_kernel ≤ s.last_kernel
    → j < total_pages
    → (init_frames s).phys j ≡ (
        if (leb s.first_kernel j && ltb j s.last_kernel) || ((j == 0x90) || (j == 0xb8))
        then used_mark
        else free_mark)
unfolding init_frames
init_frames-used s j le lt = ground (
  arith,
  mark_range-mark (s.last_kernel - s.first_kernel) s.first_kernel used_mark
      (mark_range total_pages 0 free_mark s.phys) j,
  mark_range-mark total_pages 0 free_mark s.phys j,
)
