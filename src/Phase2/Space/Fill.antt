-- ===== src/Phase2/Space/Fill.antt =====
-- so2_old/E1_E2/zeos/sys.c: the copies of the parent's data pages, through pages mapped for a while
-- behind the parent's own.
use fib_so.Prelude.{
  ℕ, zero, suc, ◌+◌, ◌^◌, ◌<◌, ◌≡◌, ◌≢◌, refl, ◌∙◌, ap, false, List, [], ◌∷◌, arith, has, get_or,
  length, AllDistinct, ltb, leb, ◌&&◌, ◌==◌, if◌then◌else◌,
}
use fib_so.Paging.Table.{
  PageTable, set_ss_pag, del_ss_pag, get_frame, del_ss_pag-set_ss_pag, get_frame-set_ss_pag,
}
use fib_so.Phase2.Kernel.{Space}
use fib_so.Phase2.Space.{pag_log_init_data, total_space, on_table, copy_page, fill_pages}

-- All frames of the list are below the number of frames.
abbrev pub AllBelow : ℕ → List ℕ → Type 0
AllBelow n [] = Unit
AllBelow n (f ∷ fs) = (f < n) × AllBelow n fs

-- The data pages from the `i`-th on have frames outside the list.
abbrev pub SourcesApart : PageTable → ℕ → ℕ → List ℕ → Type 0
SourcesApart pt i n fs = (j : ℕ) → j < n → has (get_frame pt (pag_log_init_data + i + j)) fs ≡ false

pub record Filled (fs : List ℕ) (i parent : ℕ) (sp sp' : Space) : Type 0 where
  pub phys : sp'.phys ≡ sp.phys
  pub tables : (e : ℕ) → e ≢ parent → sp'.tables e ≡ sp.tables e
  pub entries :
      (p : ℕ)
      → sp'.tables parent p ≡ (
          if leb (total_space + i) p && ltb p (total_space + i + length fs)
          then 0
          else sp.tables parent p)
  pub copies :
      (j : ℕ)
      → j < length fs
      → sp'.page (get_or fs j 0)
        ≡ sp.page (get_frame (sp.tables parent) (pag_log_init_data + i + j))
  pub others : (f : ℕ) → has f fs ≡ false → sp'.page f ≡ sp.page f

-- One round: the frame mapped, filled and unmapped.
abbrev filled_one : ℕ → ℕ → ℕ → Space → Space
filled_one f i parent sp =
    let sp1 : Space = on_table parent (λ pt. set_ss_pag pt (total_space + i) f) sp in
    let sp2 : Space = copy_page (sp1.tables parent) (pag_log_init_data + i) (total_space + i) sp1 in
    on_table parent (λ pt. del_ss_pag pt (total_space + i)) sp2

record Round (f i parent : ℕ) (sp sp' : Space) : Type 0 where
  phys : sp'.phys ≡ sp.phys
  tables : (e : ℕ) → e ≢ parent → sp'.tables e ≡ sp.tables e
  entries : (p : ℕ) → sp'.tables parent p ≡ (if p == total_space + i then 0 else sp.tables parent p)
  pages :
      (g : ℕ)
      → sp'.page g ≡ (
          if g == f
          then sp.page (get_frame (sp.tables parent) (pag_log_init_data + i))
          else sp.page g)

filled_one-Round :
    (f i parent : ℕ) (sp : Space) → f < 2 ^ 20 → Round f i parent sp (filled_one f i parent sp)
filled_one-Round f i parent sp small =
    let pt : PageTable = sp.tables parent in
    let to = (get_frame-set_ss_pag pt (total_space + i) f (total_space + i) small).0 in
    let from = (get_frame-set_ss_pag pt (total_space + i) f (pag_log_init_data + i) small).0 in
    record {
      phys = refl;
      tables = λ e ne. ground arith;
      entries = λ p. ground (arith, del_ss_pag-set_ss_pag pt (total_space + i) f p);
      pages = λ g. ground (arith, to, from);
    }

-- The round leaves the sources of the later rounds as they were.
Round-source :
    (f i n parent : ℕ) (sp sp' : Space) (j : ℕ)
    → Round f i parent sp sp'
    → i + suc n < 29
    → j < n
    → get_frame (sp'.tables parent) (pag_log_init_data + (i + 1) + j)
      ≡ get_frame (sp.tables parent) (pag_log_init_data + i + suc j)
unfolding get_frame
Round-source f i n parent sp sp' j one lt h =
    let page : pag_log_init_data + (i + 1) + j ≡ pag_log_init_data + i + suc j = omega arith in
    rw page (ground (arith, one.entries (pag_log_init_data + i + suc j)))

module _ (f : ℕ) (fs : List ℕ) (i parent : ℕ) (sp sp' : Space) (sp'' : Space)
    (one : Round f i parent sp sp') (r : Filled fs (i + 1) parent sp' sp'')
    (lt : i + suc (length fs) < 29) (new : has f fs ≡ false)
    (apart : SourcesApart (sp.tables parent) i (suc (length fs)) (f ∷ fs)) where
  Round-copies :
      (j : ℕ)
      → j < suc (length fs)
      → sp''.page (get_or (f ∷ fs) j 0)
        ≡ sp.page (get_frame (sp.tables parent) (pag_log_init_data + i + j))
  Round-copies zero h =
      let page : pag_log_init_data + i ≡ pag_log_init_data + i + 0 = omega arith in
      r.others f new
      ∙ ground (arith, one.pages f)
      ∙ ap (λ p. sp.page (get_frame (sp.tables parent) p)) page
  Round-copies (suc j) h =
      let g : ℕ = get_frame (sp.tables parent) (pag_log_init_data + i + suc j) in
      r.copies j (omega arith)
      ∙ ap sp'.page (Round-source f i (length fs) parent sp sp' j one lt (omega arith))
      ∙ ground (arith, one.pages g, apart (suc j) (omega arith))

pub fill_pages-Filled :
    (fs : List ℕ) (i parent : ℕ) (sp : Space)
    → AllDistinct fs
    → AllBelow (2 ^ 20) fs
    → i + length fs < 29
    → SourcesApart (sp.tables parent) i (length fs) fs
    → Filled fs i parent sp (fill_pages fs i parent sp)
unfolding fill_pages
fill_pages-Filled [] i parent sp d small lt apart = record {
  phys = refl;
  tables = λ e ne. refl;
  entries = λ p. ground arith;
  copies = λ j h. elim h [ ];
  others = λ f out. refl;
}
fill_pages-Filled (f ∷ fs) i parent sp d small lt apart =
    let sp' : Space = filled_one f i parent sp in
    let one = filled_one-Round f i parent sp small.0 in
    let sources : SourcesApart (sp'.tables parent) (i + 1) (length fs) fs = λ j h.
      rw (Round-source f i (length fs) parent sp sp' j one lt (omega arith))
        (ground (arith, apart (suc j) (omega arith))) in
    let r = fill_pages-Filled fs (i + 1) parent sp' d.1 small.1 (omega arith) sources in
    record {
      phys = r.phys ∙ one.phys;
      tables = λ e ne. r.tables e ne ∙ one.tables e ne;
      entries = λ p. r.entries p ∙ ground (arith, one.entries p);
      copies =
          Round-copies f fs i parent sp sp' (fill_pages fs (i + 1) parent sp') one r lt d.0 apart;
      others = λ g out. r.others g (ground arith) ∙ ground (arith, one.pages g);
    }
