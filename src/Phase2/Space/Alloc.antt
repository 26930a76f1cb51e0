-- ===== src/Phase2/Space/Alloc.antt =====
-- so2_old/E1_E2/zeos/sys.c: the frames that a fork allocates, and what is left when there are too
-- few.
use fib_so.Prelude.{
  ℕ, zero, suc, ◌+◌, ◌≤◌, ◌<◌, ◌≡◌, ◌≢◌, refl, ◌∙◌, ap, true, false, none, some, Option, List, [],
  ◌∷◌, ◌++◌, arith, has, has-append, AllDistinct, AllDistinct-snoc, length, length-append, ltb,
  ◌&&◌, if◌then◌else◌,
}
use fib_so.Prelude.Int.{ℤ, pos, negsuc}
use fib_so.Paging.Frames.{
  PhysMem, free_mark, used_mark, total_pages, num_pag_kernel, alloc_frame, free_frame,
}
use fib_so.Paging.Frames.Alloc.{Search, alloc_frame-Search}
use fib_so.Phase2.Space.{free_frames, alloc_round, alloc_frames, alloc_data_frames, num_pag_data}

-- The frames `fs` are distinct frames that the allocator found free in `m`, and `m'` is `m` with
-- these marked as used.
pub record Taken (m : PhysMem) (fs : List ℕ) (m' : PhysMem) : Type 0 where
  pub distinct : AllDistinct fs
  pub were_free :
      (f : ℕ) → has f fs ≡ true → (num_pag_kernel ≤ f) × (f < total_pages) × (m f ≡ free_mark)
  pub marks : (f : ℕ) → m' f ≡ (if has f fs then used_mark else m f)

-- What the allocation of `n` further frames comes to.
abbrev pub Outcome : PhysMem → ℕ → Option (List ℕ) × PhysMem → Type 0
Outcome m n (some fs, m') = Taken m fs m' × (length fs ≡ n)
Outcome m n (none, m') = (f : ℕ) → f ≢ num_pag_kernel → m' f ≡ m f

free_frames-free :
    (fs : List ℕ) (m : PhysMem) (f : ℕ)
    → f ≢ num_pag_kernel
    → free_frames fs m f
      ≡ (if has f fs && (ltb num_pag_kernel f && ltb f total_pages) then free_mark else m f)
unfolding free_frames free_frame
free_frames-free [] m f ne = refl
free_frames-free (g ∷ fs) m f ne = ground (arith, free_frames-free fs (free_frame g m) f ne)

pub Taken-snoc :
    (m : PhysMem) (fs : List ℕ) (m1 : PhysMem) (f : ℕ) (m2 : PhysMem)
    → Taken m fs m1
    → Search num_pag_kernel m1 (pos f, m2)
    → Taken m (fs ++ f ∷ []) m2
Taken-snoc m fs m1 f m2 t s =
    let new : has f fs ≡ false = ground (arith, t.marks f) in
    record {
      distinct = AllDistinct-snoc f fs t.distinct new;
      were_free =
          λ g i. ground (arith, has-append g fs (f ∷ []), t.were_free g, t.marks f, s.0, s.1, s.3);
      marks =
          λ g. ap (λ (h : PhysMem). h g) s.5 ∙ ground (arith, has-append g fs (f ∷ []), t.marks g);
    }

Outcome-failed :
    (m : PhysMem) (fs : List ℕ) (m1 m2 : PhysMem) (f : ℕ)
    → Taken m fs m1
    → m2 ≡ m1
    → f ≢ num_pag_kernel
    → free_frames fs m2 f ≡ m f
Outcome-failed m fs m1 m2 f t e ne =
    ground
      (arith, free_frames-free fs m2 f ne, ap (λ (h : PhysMem). h f) e, t.were_free f, t.marks f)

alloc_round-Outcome :
    (n : ℕ) (m : PhysMem) (fs : List ℕ) (m1 : PhysMem) (k : ℕ) (r : ℤ × PhysMem)
    → ((gs : List ℕ) (m2 : PhysMem)
        → Taken m gs m2
        → length gs + n ≡ k
        → Outcome m k (alloc_frames n gs m2))
    → Taken m fs m1
    → Search num_pag_kernel m1 r
    → length fs + suc n ≡ k
    → Outcome m k (alloc_round (alloc_frames n) fs r)
unfolding alloc_round
alloc_round-Outcome n m fs m1 k (pos f, m2) next t s e =
    next (fs ++ f ∷ []) m2 (Taken-snoc m fs m1 f m2 t s) (omega (arith, length-append fs (f ∷ [])))
alloc_round-Outcome n m fs m1 k (negsuc j, m2) next t s e =
    λ f ne. Outcome-failed m fs m1 m2 f t s.1 ne

alloc_frames-Outcome :
    (n : ℕ) (m : PhysMem) (fs : List ℕ) (m1 : PhysMem) (k : ℕ)
    → Taken m fs m1
    → length fs + n ≡ k
    → Outcome m k (alloc_frames n fs m1)
unfolding alloc_frames
alloc_frames-Outcome zero m fs m1 k t e = (t, omega arith)
alloc_frames-Outcome (suc n) m fs m1 k t e =
    alloc_round-Outcome n m fs m1 k (alloc_frame m1)
      (λ gs m2 t' e'. alloc_frames-Outcome n m gs m2 k t' e') t (alloc_frame-Search m1) e

-- A fork gets 20 distinct frames that were free, and only their marks change; where there are too
-- few it gets none, and the byte map is as before, frame 256 excepted.
pub alloc_data_frames-Outcome : (m : PhysMem) → Outcome m num_pag_data (alloc_data_frames m)
unfolding alloc_data_frames
alloc_data_frames-Outcome m =
    alloc_frames-Outcome num_pag_data m [] m num_pag_data
      (record { distinct = tt; were_free = λ f i. cc; marks = λ f. refl }) refl
