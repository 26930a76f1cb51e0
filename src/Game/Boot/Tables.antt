-- ===== src/Game/Boot/Tables.antt =====
-- so2_old/GAME/zeos/mm.c: the page tables after init_mm.
use fib_so.Prelude.{
  ℕ, zero, suc, ◌+◌, ◌-◌, ◌*◌, ◌/◌, ◌%◌, ◌^◌, ◌<◌, ◌≡◌, ◌∙◌, arith, ltb, leb, ◌&&◌, ◌||◌, ◌==◌,
  if◌then◌else◌, true, refl,
}
use fib_so.Paging.Entry.{set_present}
use fib_so.Paging.Table.{PageTable}
use fib_so.Paging.Frames.{free_mark, used_mark, total_pages}
use fib_so.Paging.Frames.Alloc.{init_frames-mark}
use fib_so.Phase2.Boot.{reset_entries}
use fib_so.Phase2.Boot.User.{init_dirs-entry, reset_entries-zero, kernel_entries-entry}
use fib_so.Game.Kernel.{Layout, Kernel}
use fib_so.Game.Process.{allocate_dir}
use fib_so.Game.Boot.{
  nr_tasks, kernel_table, init_tables, init_table_pages, init_dir_pages, init_mm,
}

-- Page `p` of a table that init_table_pages has set up: the frame of the same number, absent for the
-- two pages round the task array.
abbrev pub kernel_page : ℕ → ℕ → ℕ
kernel_page task p =
    if leb 1 p && ltb p 256
    then (if (p == (task - 4096) / 4096) || (p == (task + 40960) / 4096)
        then p * 4096 + 2
        else p * 4096 + 3)
    else 0

kernel_table-entry :
    (task : ℕ) (pt : PageTable) (p : ℕ)
    → p < total_pages
    → kernel_table task pt p ≡ kernel_page task p
unfolding kernel_table set_present
kernel_table-entry task pt p lt = ground (
  arith,
  kernel_entries-entry 255 1 (reset_entries 1024 0 pt) p
      (λ q l h. reset_entries-zero 1024 0 pt q ∙ ground arith),
  reset_entries-zero 1024 0 pt p,
)

-- The tables behind the first, and the first itself, with the entry shut.
later :
    (n j d p k : ℕ) (pt old : PageTable)
    → pt p ≡ k
    → (if leb (j + 1) d && ltb d (j + 1 + n) then k else (if d == j then pt else old) p)
      ≡ (if leb j d && ltb d (j + suc n) then k else old p)
later n j d p k pt old e = ground arith

init_tables-entry :
    (task n j : ℕ) (tables : ℕ → PageTable) (d p : ℕ)
    → p < total_pages
    → init_tables task n j tables d p
      ≡ (if leb j d && ltb d (j + n) then kernel_page task p else tables d p)
unfolding init_tables
init_tables-entry task zero j tables d p lt = ground arith
init_tables-entry task (suc n) j tables d p lt =
    let k : ℕ = kernel_page task p in
    let one : kernel_table task (tables j) p ≡ k = kernel_table-entry task (tables j) p lt in
    init_tables-entry task n (j + 1) _ d p lt
    ∙ later n j d p k (kernel_table task (tables j)) (tables d) one

-- After init_mm each of the ten page tables has the pages 1 to 255 on the frames of the same number,
-- for the kernel only; the page in front of the task array and the one behind it are absent, as are
-- page 0 and all others. The 256 frames of the kernel are used and the others free. The entry of
-- directory `d` is present and writable for the user, with the frame of page table `d`.
pub init_mm-kernel_page :
    (l : Layout) (k : Kernel) (d p : ℕ)
    → d < nr_tasks
    → p < total_pages
    → ((init_mm l k).space.tables d p ≡ kernel_page l.task p)
      × ((init_mm l k).space.phys p ≡ (if ltb p 256 then used_mark else free_mark))
      × ((init_mm l k).dir_pages d ≡ (l.pagusr_table + 4096 * d) / 4096 % 2 ^ 20 * 4096 + 7)
unfolding init_mm init_table_pages allocate_dir init_dir_pages
init_mm-kernel_page l k d p small lt =
    let inside : (leb 0 d && ltb d (0 + nr_tasks)) ≡ true = ground arith in
    (
      init_tables-entry l.task nr_tasks 0 k.space.tables d p lt ∙ rw inside refl,
      init_frames-mark k.space.phys p lt,
      init_dirs-entry nr_tasks 0 l.pagusr_table k.dir_pages d ∙ rw inside refl,
    )
