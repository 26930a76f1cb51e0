-- ===== src/Phase2/Boot/User.antt =====
-- so2_old/E1_E2/zeos/mm.c: the page tables that the kernel starts with, and the user pages of the
-- first process.
use fib_so.Prelude.{
  ℕ, zero, suc, ◌+◌, ◌-◌, ◌*◌, ◌/◌, ◌%◌, ◌^◌, ◌≤◌, ◌<◌, ◌≡◌, ◌≢◌, ◌∙◌, ap, refl, arith, ◌==◌, ltb,
  leb, ◌&&◌, if◌then◌else◌, update,
}
use fib_so.Prelude.Int.{ℤ, pos, negsuc}
use fib_so.Paging.Entry.{mapped_entry, read_only_entry, kernel_entry}
use fib_so.Paging.Table.{PageTable}
use fib_so.Paging.Frames.{PhysMem, free_mark, used_mark, total_pages, alloc_frame}
use fib_so.Paging.Frames.Alloc.{Search, NoneFree, alloc_frame-Search}
use fib_so.Phase2.Kernel.{Space}
use fib_so.Phase2.Space.{on_table}
use fib_so.Phase2.Boot.{
  init_dirs, reset_entries, kernel_entries, code_entry, data_entry, user_pages, set_user_pages,
  unsigned,
}

-- The even frames below `a` are used, all frames from `a` on are free.
abbrev FreeFrom : ℕ → PhysMem → Type 0
FreeFrom a m = NoneFree m 256 a × ((f : ℕ) → a ≤ f → f < total_pages → m f ≡ free_mark)

next_frame :
    (a : ℕ) (m : PhysMem) (r : ℤ × PhysMem)
    → 256 ≤ a
    → a < 1024
    → a % 2 ≡ 0
    → FreeFrom a m
    → Search 256 m r
    → (unsigned r.0 ≡ a) × (r.1 ≡ update m a used_mark)
next_frame a m (pos i, m') lo hi even free s =
    let same : i ≡ a = ground (arith, s.0, s.1, s.2, s.3, s.4 a, free.0 i, free.1 a) in
    (same, s.5 ∙ ap (λ j. update m j used_mark) same)
next_frame a m (negsuc n, m') lo hi even free s =
    absurd (s.2 a lo hi even (free.1 a (omega arith) hi))

code_entry-entry :
    (pt : PageTable) (page frame q : ℕ)
    → code_entry pt page frame q ≡ (if q == page then frame % 2 ^ 20 * 4096 + 5 else pt q)
unfolding code_entry
code_entry-entry pt page frame q = ground (arith, read_only_entry frame)

data_entry-entry :
    (pt : PageTable) (page frame q : ℕ)
    → data_entry pt page frame q ≡ (if q == page then frame % 2 ^ 20 * 4096 + 7 else pt q)
unfolding data_entry
data_entry-entry pt page frame q = ground (arith, mapped_entry frame)

-- `n` pages from `page` on, on every other frame from `a` on, with the low bits `b`.
record Mapped (a b n page d : ℕ) (sp sp' : Space) : Type 0 where
  entries :
      (p : ℕ)
      → sp'.tables d p ≡ (
          if leb page p && ltb p (page + n) then (a + 2 * (p - page)) * 4096 + b else sp.tables d p)
  others : (e : ℕ) → e ≢ d → sp'.tables e ≡ sp.tables e
  marks :
      (f : ℕ)
      → sp'.phys f ≡ (if leb a f && ltb f (a + 2 * n) && f % 2 == 0 then used_mark else sp.phys f)
  bytes : sp'.page ≡ sp.page

module _ (entry : PageTable → ℕ → ℕ → PageTable) (b : ℕ)
    (entry_lem : (pt : PageTable) (page frame q : ℕ)
      → entry pt page frame q ≡ (if q == page then frame % 2 ^ 20 * 4096 + b else pt q)) where
  user_pages-Mapped :
      (a n page d : ℕ) (sp : Space)
      → 256 ≤ a
      → a + 2 * n ≤ 1024
      → a % 2 ≡ 0
      → FreeFrom a sp.phys
      → Mapped a b n page d sp (user_pages entry n page d sp)
  unfolding user_pages
  user_pages-Mapped a zero page d sp lo hi even free = record {
    entries = λ p. ground arith;
    others = λ e ne. refl;
    marks = λ f. ground arith;
    bytes = refl;
  }
  user_pages-Mapped a (suc n) page d sp lo hi even free =
      let r = alloc_frame sp.phys in
      let got = next_frame a sp.phys r lo (omega arith) even free (alloc_frame-Search sp.phys) in
      let mark : (f : ℕ) → r.1 f ≡ (if f == a then used_mark else sp.phys f) =
        λ f. ap (λ (m : PhysMem). m f) got.1 in
      let sp1 : Space =
        on_table d (λ pt. entry pt page (unsigned r.0)) (record sp { phys = r.1 }) in
      let free1 : FreeFrom (a + 2) r.1 = (
        (λ j l h e. ground (arith, mark j, free.0 j l)),
        λ f l h. ground (arith, mark f, free.1 f),
      ) in
      let rest =
        user_pages-Mapped (a + 2) n (page + 1) d sp1 (omega arith) (omega arith) (omega arith)
          free1 in
      record {
        entries = λ p.
            rest.entries p ∙ ground (arith, got.0, entry_lem (sp.tables d) page (unsigned r.0) p);
        others = λ e ne. rest.others e ne ∙ ground arith;
        marks = λ f. rest.marks f ∙ ground (arith, mark f);
        bytes = rest.bytes;
      }

-- set_user_pages with every frame from 256 on free: the 8 code pages get the frames 256, 258, ...,
-- 270, readable by the user only, and the 20 data pages the frames 272, 274, ..., 310, writable by
-- the user; these frames are marked as used, and no other entry, table or mark changes.
pub set_user_pages-entries :
    (d : ℕ) (sp : Space)
    → ((f : ℕ) → 256 ≤ f → f < total_pages → sp.phys f ≡ free_mark)
    → ((p : ℕ)
        → (set_user_pages d sp).tables d p ≡ (
            if leb 276 p && ltb p 284
            then (256 + 2 * (p - 276)) * 4096 + 5
            else if leb 256 p && ltb p 276
            then (272 + 2 * (p - 256)) * 4096 + 7
            else sp.tables d p))
      × ((e : ℕ) → e ≢ d → (set_user_pages d sp).tables e ≡ sp.tables e)
      × ((f : ℕ)
          → (set_user_pages d sp).phys f
            ≡ (if leb 256 f && ltb f 312 && f % 2 == 0 then used_mark else sp.phys f))
unfolding set_user_pages
set_user_pages-entries d sp free =
    let free0 : FreeFrom 256 sp.phys = ((λ j l h e. absurd (omega arith)), free) in
    let code : Space = user_pages code_entry 8 276 d sp in
    let c =
      user_pages-Mapped code_entry 5 code_entry-entry 256 8 276 d sp (omega arith) (omega arith)
        refl free0 in
    let free1 : FreeFrom 272 code.phys =
      ((λ j l h e. ground (arith, c.marks j)), λ f l h. ground (arith, c.marks f, free f)) in
    let r =
      user_pages-Mapped data_entry 7 data_entry-entry 272 20 256 d code (omega arith) (omega arith)
        refl free1 in
    (
      (λ p. r.entries p ∙ ground (arith, c.entries p)),
      (λ e ne. r.others e ne ∙ c.others e ne),
      λ f. r.marks f ∙ ground (arith, c.marks f),
    )

pub init_dirs-entry :
    (n i base : ℕ) (dirs : ℕ → ℕ) (j : ℕ)
    → init_dirs n i base dirs j
      ≡ (if leb i j && ltb j (i + n) then (base + 4096 * j) / 4096 % 2 ^ 20 * 4096 + 7 else dirs j)
unfolding init_dirs
init_dirs-entry zero i base dirs j = ground arith
init_dirs-entry (suc n) i base dirs j =
    let r = init_dirs-entry n (i + 1) base in
    r _ j ∙ ground (arith, mapped_entry ((base + 4096 * i) / 4096))

pub reset_entries-zero :
    (n i : ℕ) (pt : PageTable) (p : ℕ)
    → reset_entries n i pt p ≡ (if leb i p && ltb p (i + n) then 0 else pt p)
unfolding reset_entries
reset_entries-zero zero i pt p = ground arith
reset_entries-zero (suc n) i pt p = reset_entries-zero n (i + 1) _ p ∙ ground arith

-- On entries that are 0.
pub kernel_entries-entry :
    (n i : ℕ) (pt : PageTable) (p : ℕ)
    → ((q : ℕ) → i ≤ q → q < i + n → pt q ≡ 0)
    → kernel_entries n i pt p ≡ (if leb i p && ltb p (i + n) then p % 2 ^ 20 * 4096 + 3 else pt p)
unfolding kernel_entries
kernel_entries-entry zero i pt p z = ground arith
kernel_entries-entry (suc n) i pt p z =
    kernel_entries-entry n (i + 1) _ p (λ q l h. ground (arith, z q))
    ∙ ground (arith, z i, kernel_entry i)
