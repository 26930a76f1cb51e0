-- ===== src/Phase2/Space/Child.antt =====
-- so2_old/E1_E2/zeos/sys.c: init_child_address_space as a whole.
use fib_so.Prelude.{
  ℕ, ◌+◌, ◌-◌, ◌^◌, ◌<◌, ◌≡◌, ◌≢◌, sym, ◌∙◌, ap, false, List, arith, has, get_or, length,
  AllDistinct, ltb, leb, ◌&&◌, if◌then◌else◌,
}
use fib_so.Paging.Table.{PageTable, get_frame}
use fib_so.Phase2.Kernel.{Space}
use fib_so.Phase2.Space.{
  num_pag_kernel, num_pag_code, num_pag_data, pag_log_init_data, pag_log_init_code, share_pages,
  map_pages, build_child,
}
use fib_so.Phase2.Space.Share.{
  open_entry, share_pages-OnlyTable, share_pages-entry, map_pages-OnlyTable, map_pages-entry,
}
use fib_so.Phase2.Space.Fill.{AllBelow, SourcesApart, fill_pages-Filled}

-- What a fork makes of the address spaces: `fs` are the frames of the child's data pages.
pub record Built (fs : List ℕ) (parent child : ℕ) (sp sp' : Space) : Type 0 where
  pub child_pages :
      (p : ℕ)
      → sp'.tables child p ≡ (
          if ltb p 256
          then open_entry (get_frame (sp.tables parent) p)
          else if ltb p 276
          then open_entry (get_or fs (p - 256) 0)
          else if ltb p 284
          then open_entry (get_frame (sp.tables parent) p)
          else sp.tables child p)
  pub parent_pages :
      (p : ℕ) → sp'.tables parent p ≡ (if leb 284 p && ltb p 304 then 0 else sp.tables parent p)
  pub copies :
      (j : ℕ) → j < 20 → sp'.page (get_or fs j 0) ≡ sp.page (get_frame (sp.tables parent) (256 + j))
  pub other_pages : (f : ℕ) → has f fs ≡ false → sp'.page f ≡ sp.page f
  pub other_tables : (e : ℕ) → e ≢ parent → e ≢ child → sp'.tables e ≡ sp.tables e
  pub phys : sp'.phys ≡ sp.phys

-- The child of a fork has the parent's kernel and code pages, on the same frames, and on the 20 new
-- frames a copy of the parent's data pages as they were. All these pages are open to the user for
-- writing. The parent keeps its pages, less what it had mapped from page 284 to 303; no other
-- table, frame or mark changes.
pub build_child-Built :
    (fs : List ℕ) (parent child : ℕ) (sp : Space)
    → parent ≢ child
    → length fs ≡ num_pag_data
    → AllDistinct fs
    → AllBelow (2 ^ 20) fs
    → SourcesApart (sp.tables parent) 0 num_pag_data fs
    → Built fs parent child sp (build_child fs parent child sp)
unfolding build_child
build_child-Built fs parent child sp ne len d small apart =
    let kernel : Space = share_pages num_pag_kernel 0 parent child sp in
    let code : Space = share_pages num_pag_code pag_log_init_code parent child kernel in
    let mapped : Space = map_pages fs pag_log_init_data child code in
    let k = share_pages-OnlyTable num_pag_kernel 0 parent child sp in
    let c = share_pages-OnlyTable num_pag_code pag_log_init_code parent child kernel in
    let m = map_pages-OnlyTable fs pag_log_init_data child code in
    let same1 : kernel.tables parent ≡ sp.tables parent = k.tables parent ne in
    let same : mapped.tables parent ≡ sp.tables parent =
      m.tables parent ne ∙ c.tables parent ne ∙ same1 in
    let bytes : mapped.page ≡ sp.page = m.page ∙ c.page ∙ k.page in
    let r = fill_pages-Filled fs 0 parent mapped d small (omega arith) (rw (same, len) apart) in
    record {
      child_pages = λ p.
          ap (λ (t : PageTable). t p) (r.tables child (λ e. ne (sym e)))
          ∙ map_pages-entry fs pag_log_init_data child code p
          ∙ ground (
            arith,
            len,
            share_pages-entry num_pag_code pag_log_init_code parent child kernel p ne,
            ap (λ t. get_frame t p) same1,
            share_pages-entry num_pag_kernel 0 parent child sp p ne,
          );
      parent_pages = λ p. r.entries p ∙ rw (same, len);
      copies = λ j h. r.copies j (omega arith) ∙ rw (same, bytes);
      other_pages = λ f out. r.others f out ∙ ap (λ (t : ℕ → ℕ → ℕ). t f) bytes;
      other_tables = λ e np nc. r.tables e np ∙ m.tables e nc ∙ c.tables e nc ∙ k.tables e nc;
      phys = r.phys ∙ m.phys ∙ c.phys ∙ k.phys;
    }
