-- ===== src/Game/Space/Child.antt =====
-- so2_old/GAME/zeos/sys.c: the address space of the child that sys_fork makes.
use fib_so.Prelude.{
  ℕ, ◌+◌, ◌-◌, ◌^◌, ◌<◌, ◌≡◌, ◌≢◌, refl, ◌∙◌, ap, sym, Bool, true, false, some, List, arith, has,
  has-get_or, get_or, get_or-injective, length, ltb, leb, ◌&&◌, if◌then◌else◌, subst,
}
use fib_so.Paging.Frames.{PhysMem, free_mark}
use fib_so.Paging.Table.{PageTable, get_frame}
use fib_so.Phase2.Kernel.{Space}
use fib_so.Phase2.Space.{share_pages, map_pages, alloc_data_frames}
use fib_so.Phase2.Space.Alloc.{Outcome, Taken, alloc_data_frames-Outcome}
use fib_so.Phase2.Space.Share.{
  OnlyTable, open_entry, share_pages-OnlyTable, share_pages-entry, map_pages-OnlyTable,
  map_pages-entry,
}
use fib_so.Game.Space.{
  num_pag_kernel, num_pag_code, num_pag_data, pag_log_init_code, pag_log_init_data, map_data_pages,
  copy_space,
}
use fib_so.Game.Space.Alloc.{Agrees, map_data_pages-Agrees}
use fib_so.Game.Space.Copy.{frame, IsApart, copy_pages-Copied}

-- What a fork makes of the address spaces: `fs` are the frames of the child's data pages, and `m` is
-- the byte map without them.
pub record Built (fs : List ℕ) (m : PhysMem) (parent child : ℕ) (sp sp' : Space) : Type 0 where
  pub child_pages :
      (p : ℕ)
      → sp'.tables child p ≡ (
          if ltb p 264
          then open_entry (frame sp parent p)
          else if ltb p 284
          then open_entry (get_or fs (p - 264) 0)
          else sp.tables child p)
  pub parent_pages :
      (p : ℕ) → sp'.tables parent p ≡ (if leb 284 p && ltb p 304 then 0 else sp.tables parent p)
  pub copies : (j : ℕ) → j < 20 → sp'.page (get_or fs j 0) ≡ sp.page (frame sp parent (264 + j))
  pub other_pages : (f : ℕ) → has f fs ≡ false → sp'.page f ≡ sp.page f
  pub other_tables : (e : ℕ) → e ≢ parent → e ≢ child → sp'.tables e ≡ sp.tables e
  pub phys : sp'.phys ≡ m

-- The frames of the data pages are marked as used.
pub record Owns (d : ℕ) (sp : Space) : Type 0 where
  pub used : (j : ℕ) → j < 20 → sp.phys (frame sp d (264 + j)) ≢ free_mark

module _ (fs : List ℕ) (m : PhysMem) (parent child : ℕ) (sp : Space) (ne : parent ≢ child)
    (t : Taken sp.phys fs m) (len : length fs ≡ num_pag_data) (own : Owns parent sp) where
  abbrev start : Space
  start = map_pages fs pag_log_init_data child (record sp { phys = m })

  abbrev kernel : Space
  kernel = share_pages num_pag_kernel 0 parent child start

  abbrev code : Space
  code = share_pages num_pag_code pag_log_init_code parent child kernel

  start-OnlyTable : OnlyTable child (record sp { phys = m }) start
  start-OnlyTable = map_pages-OnlyTable fs pag_log_init_data child (record sp { phys = m })

  kernel-OnlyTable : OnlyTable child start kernel
  kernel-OnlyTable = share_pages-OnlyTable num_pag_kernel 0 parent child start

  code-OnlyTable : OnlyTable child kernel code
  code-OnlyTable = share_pages-OnlyTable num_pag_code pag_log_init_code parent child kernel

  code-tables : (e : ℕ) → e ≢ child → code.tables e ≡ sp.tables e
  code-tables e out =
      (code-OnlyTable).tables e out
      ∙ (kernel-OnlyTable).tables e out
      ∙ (start-OnlyTable).tables e out

  code-page : code.page ≡ sp.page
  code-page = (code-OnlyTable).page ∙ (kernel-OnlyTable).page ∙ (start-OnlyTable).page

  code-entry :
      (p : ℕ)
      → code.tables child p ≡ (
          if ltb p 264
          then open_entry (frame sp parent p)
          else if ltb p 284
          then open_entry (get_or fs (p - 264) 0)
          else sp.tables child p)
  code-entry p =
      let same1 : kernel.tables parent ≡ sp.tables parent =
        (kernel-OnlyTable).tables parent ne ∙ (start-OnlyTable).tables parent ne in
      ground (
        arith,
        len,
        share_pages-entry num_pag_code pag_log_init_code parent child kernel p ne,
        ap (λ t. get_frame t p) same1,
        share_pages-entry num_pag_kernel 0 parent child start p ne,
        ap (λ t. get_frame t p) ((start-OnlyTable).tables parent ne),
        map_pages-entry fs pag_log_init_data child (record sp { phys = m }) p,
      )

  frame_small : (j : ℕ) → j < 20 → get_or fs j 0 < 2 ^ 20
  frame_small j h =
      ground (arith, t.were_free (get_or fs j 0), has-get_or fs j (omega (arith, len)))

  code-frame : (j : ℕ) → j < 20 → frame code child (264 + j) ≡ get_or fs j 0
  unfolding get_frame
  code-frame j h =
      let first : ltb (264 + j) 264 ≡ false = ground arith in
      let second : ltb (264 + j) 284 ≡ true = ground arith in
      let index : 264 + j - 264 ≡ j = omega arith in
      let e : code.tables child (264 + j) ≡ open_entry (get_or fs j 0) =
        code-entry (264 + j) ∙ rw (first, second, index) refl in
      rw e (omega (arith, frame_small j h))

  code-IsApart : IsApart num_pag_data pag_log_init_data parent child code
  code-IsApart = record {
    tables = ne;
    distinct = λ i j hi hj e.
        get_or-injective fs i j t.distinct (omega (arith, len)) (omega (arith, len))
          (sym (code-frame i hi) ∙ e ∙ code-frame j hj);
    sources = λ i j hi hj e.
        let same : frame sp parent (264 + i) ≡ get_or fs j 0 =
          sym (ap (λ (pt : PageTable). get_frame pt (264 + i)) (code-tables parent ne))
          ∙ e
          ∙ code-frame j hj in
        own.used i hi (
          ap sp.phys same ∙ (t.were_free (get_or fs j 0) (has-get_or fs j (omega (arith, len)))).2);
  }

  copy_space-Built : Built fs m parent child sp (copy_space parent child start)
  unfolding copy_space
  copy_space-Built =
      let r =
        copy_pages-Copied num_pag_data pag_log_init_data parent child code (omega arith)
          code-IsApart in
      record {
        child_pages =
            λ p. ap (λ (pt : PageTable). pt p) (r.tables child (λ e. ne (sym e))) ∙ code-entry p;
        parent_pages = λ p. r.entries p ∙ rw (code-tables parent ne) refl;
        copies = λ j h.
            ap (copy_space parent child start).page (sym (code-frame j h))
            ∙ r.copies j h
            ∙ rw (code-page, code-tables parent ne) refl;
        other_pages = λ f out.
            r.others f (λ j h e. cc (
              sym out
              ∙ ap (λ g. has g fs) (e ∙ code-frame j h)
              ∙ has-get_or fs j (omega (arith, len))))
            ∙ ap (λ (t : ℕ → ℕ → ℕ). t f) code-page;
        other_tables = λ e np nc. r.tables e np ∙ code-tables e nc;
        phys = r.phys ∙ (code-OnlyTable).phys ∙ (kernel-OnlyTable).phys ∙ (start-OnlyTable).phys;
      }

-- Let the two directories differ, let the frames of the parent's data pages be marked as used, and
-- let there be frames enough. Then the child's pages below 264 are on the frames that the parent's
-- table names for them, and its 20 data pages on new frames with the bytes of the parent's. All of
-- these are present, user and writable, whatever they are in the parent. The parent keeps its pages,
-- less what it had mapped from page 284 to 303; no other table and no other frame changes, and only
-- the new frames are marked.
pub copy_space-map_data_pages :
    (parent child : ℕ) (sp : Space) (fs : List ℕ) (m : PhysMem)
    → parent ≢ child
    → Owns parent sp
    → alloc_data_frames sp.phys ≡ (some fs, m)
    → ((map_data_pages child sp).0 ≡ true)
      × Built fs m parent child sp (copy_space parent child (map_data_pages child sp).1)
copy_space-map_data_pages parent child sp fs m ne own alloc =
    let o = subst (Outcome sp.phys num_pag_data) alloc (alloc_data_frames-Outcome sp.phys) in
    let a =
      subst (λ r. Agrees child sp r (map_data_pages child sp)) alloc
        (map_data_pages-Agrees child sp) in
    let b = copy_space-Built fs m parent child sp ne o.0 o.1 own in
    (
      ap (λ (r : Bool × Space). r.0) a,
      subst (λ (r : Bool × Space). Built fs m parent child sp (copy_space parent child r.1)) (sym a)
          b,
    )
