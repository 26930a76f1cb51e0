-- ===== src/Phase2/Boot/Tables.antt =====
-- so2_old/E1_E2/zeos/mm.c: the directories, the page tables and the byte map after init_mm.
use fib_so.Prelude.{
  ℕ, zero, suc, ◌+◌, ◌*◌, ◌%◌, ◌^◌, ◌≤◌, ◌<◌, ◌≡◌, ◌∙◌, arith, ltb, leb, ◌&&◌, if◌then◌else◌,
}
use fib_so.Paging.Table.{PageTable}
use fib_so.Paging.Frames.{free_mark, used_mark, total_pages}
use fib_so.Paging.Frames.Alloc.{init_frames-mark}
use fib_so.Phase2.Kernel.{Space}
use fib_so.Phase2.Boot.{
  nr_tasks, init_dir_pages, reset_entries, kernel_entries, init_tables, init_table_pages, init_mm,
}
use fib_so.Phase2.Boot.User.{init_dirs-entry, reset_entries-zero, kernel_entries-entry}

kernel_table :
    (pt : PageTable) (p : ℕ)
    → p < total_pages
    → kernel_entries 255 1 (reset_entries 1024 0 pt) p
      ≡ (if leb 1 p && ltb p 256 then p * 4096 + 3 else 0)
kernel_table pt p lt =
    kernel_entries-entry 255 1 (reset_entries 1024 0 pt) p
      (λ q l h. reset_entries-zero 1024 0 pt q ∙ ground arith)
    ∙ ground (arith, reset_entries-zero 1024 0 pt p)

init_tables-entry :
    (n j : ℕ) (tables : ℕ → PageTable) (d p : ℕ)
    → p < total_pages
    → init_tables n j tables d p ≡ (
        if leb j d && ltb d (j + n)
        then (if leb 1 p && ltb p 256 then p * 4096 + 3 else 0)
        else tables d p)
unfolding init_tables
init_tables-entry zero j tables d p lt = ground arith
init_tables-entry (suc n) j tables d p lt =
    init_tables-entry n (j + 1) _ d p lt ∙ ground (arith, kernel_table (tables j) p lt)

-- After init_mm each of the ten processes has a page table in which the pages 1 to 255 stand on the
-- frames of the same number, for the kernel only, and no other page is present, page 0 included;
-- the 256 frames of the kernel are used and the others free.
init_mm-identity :
    (sp : Space) (d p : ℕ)
    → d < nr_tasks
    → p < total_pages
    → ((init_mm sp).tables d p ≡ (if leb 1 p && ltb p 256 then p * 4096 + 3 else 0))
      × ((init_mm sp).phys p ≡ (if ltb p 256 then used_mark else free_mark))
unfolding init_mm init_table_pages
init_mm-identity sp d p small lt =
    (init_tables-entry nr_tasks 0 sp.tables d p lt ∙ ground arith, init_frames-mark sp.phys p lt)

-- Entry 0 of each directory leads to the page table of the same process, for the user, writable; the
-- directories behind the ten are left alone.
init_dir_pages-entry :
    (pagusr_table : ℕ) (dirs : ℕ → ℕ) (d : ℕ)
    → pagusr_table % 4096 ≡ 0
    → pagusr_table + 4096 * nr_tasks ≤ 2 ^ 32
    → init_dir_pages pagusr_table dirs d
      ≡ (if ltb d nr_tasks then pagusr_table + 4096 * d + 7 else dirs d)
unfolding init_dir_pages
init_dir_pages-entry pagusr_table dirs d aligned fits =
    init_dirs-entry nr_tasks 0 pagusr_table dirs d ∙ ground arith
