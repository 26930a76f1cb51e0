-- ===== src/Game/Space/Alloc.antt =====
-- so2_old/GAME/zeos/sys.c: the loop over the child's data pages does what the second phase's does,
-- which collects the frames in an array first.
use fib_so.Prelude.{
  ℕ, zero, suc, ◌+◌, ◌-◌, ◌^◌, ◌≤◌, ◌<◌, ◌≡◌, ◌≢◌, refl, ◌∙◌, ap, sym, Bool, true, false, none,
  some, Option, List, [], ◌∷◌, ◌++◌, ◌⊎◌, inl, inr, Bool-cases, subst, arith, has, has-get_or,
  get_or, length, length-append, ltb, leb, ◌&&◌, if◌then◌else◌,
}
use fib_so.Prelude.Int.{ℤ, pos, negsuc}
use fib_so.Paging.Frames.{PhysMem, alloc_frame, free_frame}
use fib_so.Paging.Frames.Alloc.{Search, alloc_frame-Search}
use fib_so.Paging.Table.{PageTable, set_ss_pag, del_ss_pag, get_frame}
use fib_so.Phase2.Kernel.{Space}
use fib_so.Phase2.Space.{
  on_table, free_frames, alloc_round, alloc_frames, alloc_data_frames, map_pages,
}
use fib_so.Phase2.Space.Alloc.{Taken, Taken-snoc}
use fib_so.Phase2.Space.Share.{
  open_entry, map_pages-OnlyTable, map_pages-entry, map_pages-snoc, map_pages-phys,
}
use fib_so.Phase2.Space.Release.{frames_of, frames_of-frame}
use fib_so.Game.Space.{
  num_pag_data, pag_log_init_data, release_from, map_round, map_new, map_data_pages,
}

-- What the loop leaves, against the outcome of the other: with the frames `fs` it has mapped them;
-- without, it has lost at most data pages.
abbrev pub Agrees : ℕ → Space → Option (List ℕ) × PhysMem → Bool × Space → Type 0
Agrees d sp (some fs, m) r = r ≡ (true, map_pages fs pag_log_init_data d (record sp { phys = m }))
Agrees d sp (none, m) r =
    (r.0 ≡ false)
    × (r.1.phys ≡ m)
    × (r.1.page ≡ sp.page)
    × ((e : ℕ) → e ≢ d → r.1.tables e ≡ sp.tables e)
    × ((p : ℕ)
        → (r.1.tables d p ≡ sp.tables d p)
          ⊎ ((r.1.tables d p ≡ 0)
              × (pag_log_init_data ≤ p)
              × (p < pag_log_init_data + num_pag_data)))

-- The frames of pages that are mapped one by one.
frames_of-list :
    (fs : List ℕ) (page : ℕ) (pt : PageTable)
    → ((i : ℕ) → i < length fs → get_frame pt (page + i) ≡ get_or fs i 0)
    → frames_of pt page (length fs) ≡ fs
frames_of-list [] page pt h = refl
frames_of-list (f ∷ fs) page pt h =
    let first : get_frame pt page ≡ f = ap (get_frame pt) (omega arith) ∙ h 0 (omega arith) in
    let rest =
      frames_of-list fs (page + 1) pt
        λ i lt. ap (get_frame pt) (omega arith) ∙ h (suc i) (omega arith) in
    λ i. first i ∷ rest i

frames_of-map_pages :
    (fs : List ℕ) (page d : ℕ) (sp : Space)
    → ((f : ℕ) → has f fs ≡ true → f < 2 ^ 20)
    → frames_of ((map_pages fs page d sp).tables d) page (length fs) ≡ fs
unfolding get_frame
frames_of-map_pages fs page d sp small =
    frames_of-list fs page ((map_pages fs page d sp).tables d) λ i lt.
      let f : ℕ = get_or fs i 0 in
      let below : f < 2 ^ 20 = small f (has-get_or fs i lt) in
      let index : page + i - page ≡ i = omega arith in
      let entry = map_pages-entry fs page d sp (page + i) in
      let inside : (leb page (page + i) && ltb (page + i) (page + length fs)) ≡ true =
        ground arith in
      let filled : (map_pages fs page d sp).tables d (page + i) ≡ open_entry f =
        entry ∙ rw (inside, index) refl in
      rw filled (omega arith)

-- Pages released one by one free the frames that they have.
pub release_from-free_frames :
    (n page d : ℕ) (sp : Space)
    → (release_from n page d sp).phys ≡ free_frames (frames_of (sp.tables d) page n) sp.phys
unfolding release_from free_frames del_ss_pag
release_from-free_frames zero page d sp = refl
release_from-free_frames (suc n) page d sp =
    let sp1 : Space = record sp { phys = free_frame (get_frame (sp.tables d) page) sp.phys } in
    let sp2 : Space = on_table d (λ pt. del_ss_pag pt page) sp1 in
    let same = frames_of-frame n (page + 1) (sp.tables d) (sp2.tables d) (λ p le. ground arith) in
    release_from-free_frames n (page + 1) d sp2 ∙ rw same refl

-- They change no other table and no other page.
pub record Lost (n page d : ℕ) (sp sp' : Space) : Type 0 where
  pub bytes : sp'.page ≡ sp.page
  pub others : (e : ℕ) → e ≢ d → sp'.tables e ≡ sp.tables e
  pub pages :
      (p : ℕ) → sp'.tables d p ≡ (if leb page p && ltb p (page + n) then 0 else sp.tables d p)

pub release_from-Lost : (n page d : ℕ) (sp : Space) → Lost n page d sp (release_from n page d sp)
unfolding release_from del_ss_pag
release_from-Lost zero page d sp = record {
  bytes = refl;
  others = λ e ne. refl;
  pages = λ p. ground arith;
}
release_from-Lost (suc n) page d sp =
    let sp1 : Space = record sp { phys = free_frame (get_frame (sp.tables d) page) sp.phys } in
    let sp2 : Space = on_table d (λ pt. del_ss_pag pt page) sp1 in
    let r = release_from-Lost n (page + 1) d sp2 in
    record {
      bytes = r.bytes;
      others = λ e ne. r.others e ne ∙ ground arith;
      pages = λ p. ground (arith, r.pages p);
    }

-- The space when the pages of `fs` are mapped, and the byte map is `m`.
abbrev mapped : ℕ → Space → List ℕ → PhysMem → Space
mapped d sp fs m = map_pages fs pag_log_init_data d (record sp { phys = m })

module _ (d : ℕ) (sp : Space) where
  give_up :
      (fs : List ℕ) (m1 m2 : PhysMem)
      → Taken sp.phys fs m1
      → length fs < num_pag_data
      → Agrees d sp
          (none, free_frames fs m2)
          (false, release_from (length fs) pag_log_init_data d (mapped d sp fs m2))
  give_up fs m1 m2 t short =
      let s2 : Space = mapped d sp fs m2 in
      let o = map_pages-OnlyTable fs pag_log_init_data d (record sp { phys = m2 }) in
      let l = release_from-Lost (length fs) pag_log_init_data d s2 in
      let frames =
        frames_of-map_pages fs pag_log_init_data d (record sp { phys = m2 })
          λ f i. ground (arith, t.were_free f i) in
      (
        refl,
        release_from-free_frames (length fs) pag_log_init_data d s2
            ∙ rw frames (ap (λ (m : PhysMem). free_frames fs m) o.phys),
        l.bytes ∙ o.page,
        λ e ne. l.others e ne ∙ o.tables e ne,
        λ p. elim (Bool-cases (leb pag_log_init_data p && ltb p (pag_log_init_data + length fs))) [
          | inl inside ↦ inr (l.pages p ∙ rw inside refl, ground arith, ground arith)
          | inr outside ↦ inl (
              l.pages p
              ∙ rw outside (
                  map_pages-entry fs pag_log_init_data d (record sp { phys = m2 }) p
                  ∙ rw outside refl))
        ],
      )

  step :
      (n : ℕ) (fs : List ℕ) (m1 : PhysMem) (r : ℤ × PhysMem)
      → ((gs : List ℕ) (m2 : PhysMem)
          → Taken sp.phys gs m2
          → length gs + n ≡ num_pag_data
          → Agrees d sp (alloc_frames n gs m2) (map_new n (length gs) d (mapped d sp gs m2)))
      → Taken sp.phys fs m1
      → Search 256 m1 r
      → length fs + suc n ≡ num_pag_data
      → Agrees d sp
          (alloc_round (alloc_frames n) fs r)
          (map_round (λ pag sp. map_new n pag d sp) (length fs) d (mapped d sp fs m1) r)
  unfolding alloc_round map_round
  step n fs m1 (pos f, m2) next t s e =
      let base : Space = record sp { phys = m1 } in
      let count : length (fs ++ f ∷ []) ≡ length fs + 1 = length-append fs (f ∷ []) in
      let space =
        map_pages-snoc fs f pag_log_init_data d (record sp { phys = m2 })
        ∙ ap (on_table d (λ pt. set_ss_pag pt (pag_log_init_data + length fs) f))
            (sym (map_pages-phys fs pag_log_init_data d base m2)) in
      let a = next (fs ++ f ∷ []) m2 (Taken-snoc sp.phys fs m1 f m2 t s) (omega (arith, count)) in
      subst (λ s2. Agrees d sp (alloc_frames n (fs ++ f ∷ []) m2) (map_new n (length fs + 1) d s2))
        space
        (subst
          (λ c.
            Agrees d sp (alloc_frames n (fs ++ f ∷ []) m2)
              (map_new n c d (mapped d sp (fs ++ f ∷ []) m2)))
          count a)
  step n fs m1 (negsuc k, m2) next t s e =
      let base : Space = record sp { phys = m1 } in
      subst
        (λ s2.
          Agrees d sp (none, free_frames fs m2)
            (false, release_from (length fs) pag_log_init_data d s2))
        (sym (map_pages-phys fs pag_log_init_data d base m2)) (give_up fs m1 m2 t (omega arith))

  map_new-Agrees :
      (n : ℕ) (fs : List ℕ) (m1 : PhysMem)
      → Taken sp.phys fs m1
      → length fs + n ≡ num_pag_data
      → Agrees d sp (alloc_frames n fs m1) (map_new n (length fs) d (mapped d sp fs m1))
  unfolding alloc_frames map_new
  map_new-Agrees zero fs m1 t e = refl
  map_new-Agrees (suc n) fs m1 t e =
      let phys : (mapped d sp fs m1).phys ≡ m1 =
        (map_pages-OnlyTable fs pag_log_init_data d (record sp { phys = m1 })).phys in
      subst
        (λ m. Agrees d sp (alloc_round (alloc_frames n) fs (alloc_frame m1)) (
          map_round (λ pag sp. map_new n pag d sp) (length fs) d (mapped d sp fs m1)
            (alloc_frame m)))
        (sym phys)
        (step n fs m1 (alloc_frame m1) (λ gs m2 t' e'. map_new-Agrees n gs m2 t' e') t
          (alloc_frame-Search m1) e)

-- The game's loop, which maps each new frame at once and undoes that through the page table, comes
-- to the same as the second phase's, which collects the frames first: the same frames are taken and
-- mapped in order, or none are left taken but those that the other leaves, and of the child's table
-- at most data pages are lost. Other tables and the bytes of the frames do not change.
pub map_data_pages-Agrees :
    (d : ℕ) (sp : Space) → Agrees d sp (alloc_data_frames sp.phys) (map_data_pages d sp)
unfolding map_data_pages alloc_data_frames map_pages
map_data_pages-Agrees d sp =
    map_new-Agrees d sp num_pag_data [] sp.phys
      (record { distinct = tt; were_free = λ f i. cc; marks = λ f. refl }) refl
