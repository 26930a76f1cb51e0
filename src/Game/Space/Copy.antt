-- ===== src/Game/Space/Copy.antt =====
-- so2_old/GAME/zeos/sys.c: the copies of the parent's data pages.
use fib_so.Prelude.{
  ℕ, zero, suc, ◌+◌, ◌^◌, ◌≤◌, ◌<◌, ◌≡◌, ◌≢◌, refl, ◌∙◌, ap, sym, arith, ltb, leb, ◌&&◌, ◌==◌,
  if◌then◌else◌,
}
use fib_so.Paging.Table.{
  PageTable, set_ss_pag, del_ss_pag, get_frame, del_ss_pag-set_ss_pag, get_frame-set_ss_pag,
}
use fib_so.Phase2.Kernel.{Space}
use fib_so.Phase2.Space.{on_table, copy_page}
use fib_so.Game.Space.{num_pag_data, copy_pages}

-- `frame sp d p` is the frame of page `p` in the table of directory `d`.
abbrev pub frame : Space → ℕ → ℕ → ℕ
frame sp d p = get_frame (sp.tables d) p

-- The frames of the child's pages are distinct, and none of the parent's.
pub record IsApart (n pag parent child : ℕ) (sp : Space) : Type 0 where
  pub tables : parent ≢ child
  pub distinct :
      (i j : ℕ) → i < n → j < n → frame sp child (pag + i) ≡ frame sp child (pag + j) → i ≡ j
  pub sources : (i j : ℕ) → i < n → j < n → frame sp parent (pag + i) ≢ frame sp child (pag + j)

-- `n` pages from `pag` on are copied.
pub record Copied (n pag parent child : ℕ) (sp sp' : Space) : Type 0 where
  pub phys : sp'.phys ≡ sp.phys
  pub tables : (e : ℕ) → e ≢ parent → sp'.tables e ≡ sp.tables e
  pub entries :
      (p : ℕ)
      → sp'.tables parent p ≡ (
          if leb (pag + num_pag_data) p && ltb p (pag + num_pag_data + n)
          then 0
          else sp.tables parent p)
  pub copies :
      (j : ℕ) → j < n → sp'.page (frame sp child (pag + j)) ≡ sp.page (frame sp parent (pag + j))
  pub others : (f : ℕ) → ((j : ℕ) → j < n → f ≢ frame sp child (pag + j)) → sp'.page f ≡ sp.page f

abbrev copied_one : ℕ → ℕ → ℕ → Space → Space
copied_one pag parent child sp =
    let temp : ℕ = pag + num_pag_data in
    let f : ℕ = get_frame (sp.tables child) pag in
    let sp1 : Space = on_table parent (λ pt. set_ss_pag pt temp f) sp in
    let sp2 : Space = copy_page (sp1.tables parent) pag temp sp1 in
    on_table parent (λ pt. del_ss_pag pt temp) sp2

record Round (pag parent child : ℕ) (sp sp' : Space) : Type 0 where
  phys : sp'.phys ≡ sp.phys
  tables : (e : ℕ) → e ≢ parent → sp'.tables e ≡ sp.tables e
  entries :
      (p : ℕ) → sp'.tables parent p ≡ (if p == pag + num_pag_data then 0 else sp.tables parent p)
  pages :
      (g : ℕ)
      → sp'.page g ≡ (if g == frame sp child pag then sp.page (frame sp parent pag) else sp.page g)

frame-small : (sp : Space) (d p : ℕ) → frame sp d p < 2 ^ 20
unfolding get_frame
frame-small sp d p = omega arith

copied_one-Round :
    (pag parent child : ℕ) (sp : Space) → Round pag parent child sp (copied_one pag parent child sp)
copied_one-Round pag parent child sp =
    let pt : PageTable = sp.tables parent in
    let temp : ℕ = pag + num_pag_data in
    let f : ℕ = frame sp child pag in
    let to = (get_frame-set_ss_pag pt temp f temp (frame-small sp child pag)).0 in
    let from = (get_frame-set_ss_pag pt temp f pag (frame-small sp child pag)).0 in
    record {
      phys = refl;
      tables = λ e ne. ground arith;
      entries = λ p. ground (arith, del_ss_pag-set_ss_pag pt temp f p);
      pages = λ g. ground (arith, to, from);
    }

module _ (n pag parent child : ℕ) (sp sp' : Space) (one : Round pag parent child sp sp')
    (small : suc n ≤ num_pag_data) (apart : IsApart (suc n) pag parent child sp) where
  Round-child : (j : ℕ) → frame sp' child (pag + 1 + j) ≡ frame sp child (pag + suc j)
  Round-child j =
      let page : pag + 1 + j ≡ pag + suc j = omega arith in
      rw (page, one.tables child (λ e. apart.tables (sym e))) refl

  Round-parent : (j : ℕ) → j < n → frame sp' parent (pag + 1 + j) ≡ frame sp parent (pag + suc j)
  unfolding get_frame
  Round-parent j h =
      let page : pag + 1 + j ≡ pag + suc j = omega arith in
      rw page (ground (arith, one.entries (pag + suc j)))

  Round-IsApart : IsApart n (pag + 1) parent child sp'
  Round-IsApart = record {
    tables = apart.tables;
    distinct = λ i j hi hj e.
        let k : suc i ≡ suc j =
          apart.distinct (suc i) (suc j) (omega arith) (omega arith)
            (sym (Round-child i) ∙ e ∙ Round-child j) in
        omega arith;
    sources = λ i j hi hj e.
        apart.sources (suc i) (suc j) (omega arith) (omega arith)
          (sym (Round-parent i hi) ∙ e ∙ Round-child j);
  }

  module _ (sp'' : Space) (r : Copied n (pag + 1) parent child sp' sp'') where
    copies :
        (j : ℕ)
        → j < suc n
        → sp''.page (frame sp child (pag + j)) ≡ sp.page (frame sp parent (pag + j))
    copies zero h =
        let start : pag + 0 ≡ pag = omega arith in
        let f : ℕ = frame sp child pag in
        let new = λ (j : ℕ) (h : j < n) (e : f ≡ frame sp' child (pag + 1 + j)).
          let same : 0 ≡ suc j =
            apart.distinct 0 (suc j) (omega arith) (omega arith)
              (ap (frame sp child) start ∙ e ∙ Round-child j) in
          absurd (omega arith) in
        rw start (r.others f new ∙ ground (arith, one.pages f))
    copies (suc j) h =
        let start : pag + 0 ≡ pag = omega arith in
        let g : ℕ = frame sp parent (pag + suc j) in
        let other : g ≢ frame sp child pag =
          λ e. apart.sources (suc j) 0 h (omega arith) (e ∙ ap (frame sp child) (sym start)) in
        ap sp''.page (sym (Round-child j))
        ∙ r.copies j (omega arith)
        ∙ ap sp'.page (Round-parent j (omega arith))
        ∙ ground (arith, one.pages g)

    others :
        (f : ℕ) → ((j : ℕ) → j < suc n → f ≢ frame sp child (pag + j)) → sp''.page f ≡ sp.page f
    others f out =
        let start : pag + 0 ≡ pag = omega arith in
        let other : f ≢ frame sp child pag =
          λ e. out 0 (omega arith) (e ∙ ap (frame sp child) (sym start)) in
        r.others f (λ j h e. out (suc j) (omega arith) (e ∙ Round-child j))
        ∙ ground (arith, one.pages f)

pub copy_pages-Copied :
    (n pag parent child : ℕ) (sp : Space)
    → n ≤ num_pag_data
    → IsApart n pag parent child sp
    → Copied n pag parent child sp (copy_pages n pag parent child sp)
unfolding copy_pages
copy_pages-Copied zero pag parent child sp small apart = record {
  phys = refl;
  tables = λ e ne. refl;
  entries = λ p. ground arith;
  copies = λ j h. elim h [ ];
  others = λ f out. refl;
}
copy_pages-Copied (suc n) pag parent child sp small apart =
    let sp' : Space = copied_one pag parent child sp in
    let one = copied_one-Round pag parent child sp in
    let next = Round-IsApart n pag parent child sp sp' one small apart in
    let r = copy_pages-Copied n (pag + 1) parent child sp' (omega arith) next in
    let sp'' : Space = copy_pages n (pag + 1) parent child sp' in
    record {
      phys = r.phys ∙ one.phys;
      tables = λ e ne. r.tables e ne ∙ one.tables e ne;
      entries = λ p. r.entries p ∙ ground (arith, one.entries p);
      copies = copies n pag parent child sp sp' one small apart sp'' r;
      others = others n pag parent child sp sp' one small apart sp'' r;
    }
