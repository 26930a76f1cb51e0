-- ===== src/Phase2/Space/Share.antt =====
-- so2_old/E1_E2/zeos/sys.c: the address space that a fork builds for the child.
use fib_so.Prelude.{
  ℕ, zero, suc, ◌+◌, ◌-◌, ◌*◌, ◌%◌, ◌^◌, ◌<◌, ◌≡◌, ◌≢◌, refl, ◌∙◌, ap, List, [], ◌∷◌, ◌++◌, arith,
  get_or, length, ltb, leb, ◌&&◌, if◌then◌else◌,
}
use fib_so.Paging.Frames.{PhysMem}
use fib_so.Paging.Table.{set_ss_pag, get_frame, set_ss_pag-entry}
use fib_so.Phase2.Kernel.{Space}
use fib_so.Phase2.Space.{on_table, share_pages, map_pages}

-- The entry that set_ss_pag makes.
abbrev pub open_entry : ℕ → ℕ
open_entry frame = frame % 2 ^ 20 * 4096 + 7

-- `sp'` differs from `sp` at most in the table `d`.
pub record OnlyTable (d : ℕ) (sp sp' : Space) : Type 0 where
  pub phys : sp'.phys ≡ sp.phys
  pub page : sp'.page ≡ sp.page
  pub tables : (e : ℕ) → e ≢ d → sp'.tables e ≡ sp.tables e

pub share_pages-OnlyTable :
    (n page parent child : ℕ) (sp : Space) → OnlyTable child sp (share_pages n page parent child sp)
unfolding share_pages
share_pages-OnlyTable zero page parent child sp = record {
  phys = refl;
  page = refl;
  tables = λ e ne. refl;
}
share_pages-OnlyTable (suc n) page parent child sp =
    let sp1 : Space =
      on_table child (λ pt. set_ss_pag pt page (get_frame (sp.tables parent) page)) sp in
    let r = share_pages-OnlyTable n (page + 1) parent child sp1 in
    record { phys = r.phys; page = r.page; tables = λ e ne. r.tables e ne ∙ ground arith }

pub share_pages-entry :
    (n page parent child : ℕ) (sp : Space) (p : ℕ)
    → parent ≢ child
    → (share_pages n page parent child sp).tables child p ≡ (
        if leb page p && ltb p (page + n)
        then open_entry (get_frame (sp.tables parent) p)
        else sp.tables child p)
unfolding share_pages
share_pages-entry zero page parent child sp p ne = ground arith
share_pages-entry (suc n) page parent child sp p ne =
    let f : ℕ = get_frame (sp.tables parent) page in
    let sp1 : Space = on_table child (λ pt. set_ss_pag pt page f) sp in
    let same : sp1.tables parent ≡ sp.tables parent = ground arith in
    share_pages-entry n (page + 1) parent child sp1 p ne
    ∙ rw same (ground (arith, set_ss_pag-entry (sp.tables child) page f p))

pub map_pages-OnlyTable :
    (fs : List ℕ) (page child : ℕ) (sp : Space) → OnlyTable child sp (map_pages fs page child sp)
unfolding map_pages
map_pages-OnlyTable [] page child sp = record { phys = refl; page = refl; tables = λ e ne. refl }
map_pages-OnlyTable (f ∷ fs) page child sp =
    let r =
      map_pages-OnlyTable fs (page + 1) child (on_table child (λ pt. set_ss_pag pt page f) sp) in
    record { phys = r.phys; page = r.page; tables = λ e ne. r.tables e ne ∙ ground arith }

pub map_pages-snoc :
    (fs : List ℕ) (f page d : ℕ) (sp : Space)
    → map_pages (fs ++ f ∷ []) page d sp
      ≡ on_table d (λ pt. set_ss_pag pt (page + length fs) f) (map_pages fs page d sp)
unfolding map_pages
map_pages-snoc [] f page d sp = let e : page + 0 ≡ page = omega arith in rw e refl
map_pages-snoc (g ∷ fs) f page d sp =
    let e : page + suc (length fs) ≡ page + 1 + length fs = omega arith in
    rw e (map_pages-snoc fs f (page + 1) d (on_table d (λ pt. set_ss_pag pt page g) sp))

pub map_pages-phys :
    (fs : List ℕ) (page d : ℕ) (sp : Space) (m : PhysMem)
    → record (map_pages fs page d sp) { phys = m } ≡ map_pages fs page d (record sp { phys = m })
unfolding map_pages
map_pages-phys [] page d sp m = refl
map_pages-phys (g ∷ fs) page d sp m =
    map_pages-phys fs (page + 1) d (on_table d (λ pt. set_ss_pag pt page g) sp) m

get_or-shift : (x : ℕ) (xs : List ℕ) (i : ℕ) → 0 < i → get_or (x ∷ xs) i 0 ≡ get_or xs (i - 1) 0
get_or-shift x xs zero h = absurd (omega arith)
get_or-shift x xs (suc i) h = ap (λ j. get_or xs j 0) (omega arith)

pub map_pages-entry :
    (fs : List ℕ) (page child : ℕ) (sp : Space) (p : ℕ)
    → (map_pages fs page child sp).tables child p ≡ (
        if leb page p && ltb p (page + length fs)
        then open_entry (get_or fs (p - page) 0)
        else sp.tables child p)
unfolding map_pages
map_pages-entry [] page child sp p = ground arith
map_pages-entry (f ∷ fs) page child sp p =
    let sp1 : Space = on_table child (λ pt. set_ss_pag pt page f) sp in
    map_pages-entry fs (page + 1) child sp1 p
    ∙ ground (arith, set_ss_pag-entry (sp.tables child) page f p, get_or-shift f fs (p - page))
