-- ===== src/Game/Boot.antt =====
-- so2_old/GAME/zeos/mm.c, sched.c and system.c: page tables, queues and the two processes that the
-- kernel starts with. The entries of the tables are made as in the second phase.
pub mod Queued
pub mod Started
pub mod Tables
use fib_so.Prelude.{ℕ, zero, suc, ◌+◌, ◌-◌, ◌*◌, ◌/◌, ◌==◌, if◌then◌else◌, update}
use fib_so.Prelude.Int.{ℤ, pos, negsuc}
use fib_so.ListHead.{Ptr, init_list_head, list_add_tail, list_del, list_first}
use fib_so.Paging.Entry.{set_present}
use fib_so.Paging.Table.{PageTable, at_entry}
use fib_so.Paging.Frames.{init_frames}
use fib_so.Phase2.Kernel.{Run, done, ◌>>=◌, lift, st_run, Space, list_of}
use fib_so.Phase2.Boot.{
  init_dirs, reset_entries, kernel_entries, code_entry, data_entry, user_pages,
}
use fib_so.Game.Kernel.{Layout, Kernel, on_links, set_task, list_head_to_task_struct, init_stats}
use fib_so.Game.Space.{num_pag_code, num_pag_data, pag_log_init_code, pag_log_init_data}
use fib_so.Game.Process.{allocate_dir}

abbrev pub nr_tasks : ℕ
nr_tasks = 10

abbrev pub default_quantum : ℤ
default_quantum = pos 10

-- The kernel's pages, less the page before the task array and the one behind it.
pub kernel_table : Ptr → PageTable → PageTable
kernel_table task pt =
    let pt1 : PageTable = kernel_entries 255 1 (reset_entries 1024 0 pt) in
    let pt2 : PageTable = at_entry pt1 ((task - 4096) / 4096) (λ e. set_present e 0) in
    at_entry pt2 ((task + 40960) / 4096) (λ e. set_present e 0)

-- The `n` tables from the `j`-th on.
pub init_tables : Ptr → ℕ → ℕ → (ℕ → PageTable) → ℕ → PageTable
init_tables task zero j tables = tables
init_tables task (suc n) j tables =
    let pt : PageTable = kernel_table task (tables j) in
    init_tables task n (j + 1) (λ d. if d == j then pt else tables d)

pub init_table_pages : Ptr → (ℕ → PageTable) → ℕ → PageTable
init_table_pages task tables = init_tables task nr_tasks 0 tables

pub set_user_pages : ℕ → Space → Space
set_user_pages d sp =
    let code : Space = user_pages code_entry num_pag_code pag_log_init_code d sp in
    user_pages data_entry num_pag_data pag_log_init_data d code

module _ (l : Layout) where
  pub init_dir_pages : (ℕ → ℕ) → ℕ → ℕ
  init_dir_pages dir_pages = init_dirs nr_tasks 0 l.pagusr_table dir_pages

  -- Paging is switched on in assembly.
  pub init_mm : Kernel → Kernel
  init_mm k =
      let sp1 : Space = record (k.space) { tables = init_table_pages l.task k.space.tables } in
      let sp2 : Space = record sp1 { phys = init_frames sp1.phys } in
      let dirs : ℕ → ℕ = init_dir_pages k.dir_pages in
      let k1 : Kernel = allocate_dir l l.task (record k { space = sp2; dir_pages = dirs }) in
      record k1 { cr3 = (k1.task l.task).dir }

  -- The structures from the `i`-th on.
  pub add_tasks : ℕ → ℕ → Kernel → Run Kernel
  add_tasks zero i k = done k
  add_tasks (suc n) i k =
      let t : Ptr = l.task + 4096 * i in
      (do
        k ←
            on_links (list_add_tail (list_of t) l.freequeue)
              (set_task t (record (k.task t) { pid = negsuc 0 }) k)
        add_tasks n (i + 1) k)

  pub init_freequeue : Kernel → Run Kernel
  init_freequeue k = do k ← on_links (init_list_head l.freequeue) k; add_tasks nr_tasks 0 k

  pub init_sched : Kernel → Run Kernel
  init_sched k = do k ← init_freequeue k; on_links (init_list_head l.readyqueue) k

  -- What init_idle does with the structure that it has taken, and init_task1.
  pub idle_process : Ptr → Kernel → Kernel
  idle_process c k =
      let k1 : Kernel =
        set_task c (record (k.task c) { pid = pos 0; total_quantum = default_quantum }) k in
      let k2 : Kernel = allocate_dir l c (init_stats c k1) in
      let words : ℕ → ℕ = update (update (k2.stack c) 1023 l.cpu_idle) 1022 0 in
      record k2 {
        stack = update k2.stack c words;
        task = update k2.task c (record (k2.task c) { register_esp = c + 4 * 1022 });
        idle_task = c;
      }

  pub first_process : Ptr → Kernel → Kernel
  first_process c k =
      let k1 : Kernel =
        set_task c
          (record (k.task c) { pid = pos 1; total_quantum = default_quantum; state = st_run }) k in
      let k2 : Kernel = record k1 { remaining_quantum = (k1.task c).total_quantum } in
      let k3 : Kernel = allocate_dir l c (init_stats c k2) in
      record k3 {
        space = set_user_pages (k3.task c).dir k3.space;
        tss_esp0 = c + 4096;
        msr_esp = c + 4096;
        cr3 = (k3.task c).dir;
      }

  pub init_idle : Kernel → Run Kernel
  init_idle k = do
    e ← lift (list_first l.freequeue k.links)
    k ← on_links (list_del e) k
    done (idle_process (list_head_to_task_struct e) k)

  pub init_task1 : Kernel → Run Kernel
  init_task1 k = do
    e ← lift (list_first l.freequeue k.links)
    k ← on_links (list_del e) k
    done (first_process (list_head_to_task_struct e) k)

  -- The order in which main starts memory, scheduler and processes.
  pub start : Kernel → Run Kernel
  start k = do k ← init_sched (init_mm k); k ← init_idle k; init_task1 k
