-- ===== src/Paging/Table.antt =====
-- so2_old/E1_E2/zeos/mm.c: the operations on one page table.
use fib_so.Prelude.{ℕ, ◌+◌, ◌*◌, ◌%◌, ◌^◌, ◌<◌, ◌≡◌, arith, ◌==◌, if◌then◌else◌, update}
use fib_so.Paging.Entry.{
  present, rw_bit, user_bit, pbase_addr, set_present, set_rw, set_user, set_pbase_addr,
  mapped_entry,
}

-- A page table: the entry of each logical page.
abbrev pub PageTable : Type 0
PageTable = ℕ → ℕ

-- `PT[page].f = v`, as a change of the entry.
abbrev pub at_entry : PageTable → ℕ → (ℕ → ℕ) → PageTable
at_entry pt page f = update pt page (f (pt page))

unfoldable pub set_ss_pag : PageTable → ℕ → ℕ → PageTable
set_ss_pag pt page frame =
    let pt1 : PageTable = at_entry pt page (λ e. 0) in
    let pt2 : PageTable = at_entry pt1 page (λ e. set_pbase_addr e frame) in
    let pt3 : PageTable = at_entry pt2 page (λ e. set_user e 1) in
    let pt4 : PageTable = at_entry pt3 page (λ e. set_rw e 1) in
    at_entry pt4 page (λ e. set_present e 1)

unfoldable pub del_ss_pag : PageTable → ℕ → PageTable
del_ss_pag pt logical_page = at_entry pt logical_page (λ e. 0)

unfoldable pub get_frame : PageTable → ℕ → ℕ
get_frame pt logical_page = pbase_addr (pt logical_page)

pub set_ss_pag-entry :
    (pt : PageTable) (page frame q : ℕ)
    → set_ss_pag pt page frame q ≡ (if q == page then frame % 2 ^ 20 * 4096 + 7 else pt q)
unfolding set_ss_pag
set_ss_pag-entry pt page frame q = ground (arith, mapped_entry frame)

-- Mapping a page makes it present, writable and accessible to the user at the given frame, and
-- leaves every other page alone.
pub get_frame-set_ss_pag :
    (pt : PageTable) (page frame q : ℕ)
    → frame < 2 ^ 20
    → let pt' = set_ss_pag pt page frame in
      (get_frame pt' q ≡ (if q == page then frame else get_frame pt q))
      × (present (pt' page) ≡ 1)
      × (rw_bit (pt' page) ≡ 1)
      × (user_bit (pt' page) ≡ 1)
unfolding get_frame
get_frame-set_ss_pag pt page frame q h = (
  ground (arith, set_ss_pag-entry pt page frame q),
  ground (arith, set_ss_pag-entry pt page frame page),
  ground (arith, set_ss_pag-entry pt page frame page),
  ground (arith, set_ss_pag-entry pt page frame page),
)

-- Unmapping a page undoes a mapping of it: the page is absent, every other page is as it was.
pub del_ss_pag-set_ss_pag :
    (pt : PageTable) (page frame q : ℕ)
    → del_ss_pag (set_ss_pag pt page frame) page q ≡ (if q == page then 0 else pt q)
unfolding del_ss_pag
del_ss_pag-set_ss_pag pt page frame q = ground (arith, set_ss_pag-entry pt page frame q)
