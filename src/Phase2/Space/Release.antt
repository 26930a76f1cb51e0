-- ===== src/Phase2/Space/Release.antt =====
-- so2_old/E1_E2/zeos/sys.c: the pages and frames that an exiting process gives back.
use fib_so.Prelude.{
  ℕ, zero, suc, ◌+◌, ◌≤◌, ◌≡◌, ◌≢◌, refl, ◌∙◌, ap, List, [], ◌∷◌, arith, has, ltb, leb, ◌&&◌,
  if◌then◌else◌,
}
use fib_so.Paging.Frames.{free_frame, free_mark, total_pages}
use fib_so.Paging.Table.{PageTable, del_ss_pag, get_frame}
use fib_so.Phase2.Kernel.{Space}
use fib_so.Phase2.Space.{
  num_pag_kernel, num_pag_data, pag_log_init_data, on_table, release_from, release_pages,
}

-- The frames of the `n` pages from `page` on.
abbrev pub frames_of : PageTable → ℕ → ℕ → List ℕ
frames_of pt page zero = []
frames_of pt page (suc n) = get_frame pt page ∷ frames_of pt (page + 1) n

-- `n` data pages of directory `d` given back, from the `i`-th on.
pub record Released (i n d : ℕ) (sp sp' : Space) : Type 0 where
  pub pages :
      (p : ℕ)
      → sp'.tables d p ≡ (
          if leb (pag_log_init_data + i) p && ltb p (pag_log_init_data + i + n)
          then 0
          else sp.tables d p)
  pub others : (e : ℕ) → e ≢ d → sp'.tables e ≡ sp.tables e
  pub frames :
      (f : ℕ)
      → sp'.phys f ≡ (
          if has f (frames_of (sp.tables d) (pag_log_init_data + i) n)
            && (ltb num_pag_kernel f && ltb f total_pages)
          then free_mark
          else sp.phys f)
  pub bytes : sp'.page ≡ sp.page

pub frames_of-frame :
    (n page : ℕ) (pt pt' : PageTable)
    → ((p : ℕ) → page ≤ p → pt' p ≡ pt p)
    → frames_of pt' page n ≡ frames_of pt page n
unfolding get_frame
frames_of-frame zero page pt pt' same = refl
frames_of-frame (suc n) page pt pt' same =
    rw (same page (omega arith), frames_of-frame n (page + 1) pt pt' (λ p le. same p (omega arith)))

release_from-Released : (n i d : ℕ) (sp : Space) → Released i n d sp (release_from n i d sp)
unfolding release_from free_frame del_ss_pag
release_from-Released zero i d sp = record {
  pages = λ p. ground arith;
  others = λ e ne. refl;
  frames = λ f. ground arith;
  bytes = refl;
}
release_from-Released (suc n) i d sp =
    let frame : ℕ = get_frame (sp.tables d) (pag_log_init_data + i) in
    let sp1 : Space = record sp { phys = free_frame frame sp.phys } in
    let sp2 : Space = on_table d (λ pt. del_ss_pag pt (pag_log_init_data + i)) sp1 in
    let r = release_from-Released n (i + 1) d sp2 in
    let next : pag_log_init_data + (i + 1) ≡ pag_log_init_data + i + 1 = omega arith in
    let same =
      ap (λ p. frames_of (sp2.tables d) p n) next
      ∙ frames_of-frame n (pag_log_init_data + i + 1) (sp.tables d) (sp2.tables d)
          (λ p le. ground arith) in
    record {
      pages = λ p. ground (arith, r.pages p);
      others = λ e ne. r.others e ne ∙ ground arith;
      frames = λ f. r.frames f ∙ rw same (ground arith);
      bytes = r.bytes;
    }

-- An exiting process gives back the frames of its 20 data pages, those the allocator can have and
-- frame 256 excepted; it loses those pages, and no other page, table or frame changes.
pub release_pages-Released :
    (d : ℕ) (sp : Space) → Released 0 num_pag_data d sp (release_pages d sp)
unfolding release_pages
release_pages-Released d sp = release_from-Released num_pag_data 0 d sp
