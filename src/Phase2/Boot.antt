-- ===== src/Phase2/Boot.antt =====
-- so2_old/E1_E2/zeos/mm.c and sched.c: the page tables, the queues and the two processes that the
-- kernel starts with.
pub mod First
pub mod Free
pub mod Queued
pub mod Tables
pub mod User
use fib_so.Prelude.{
  ℕ, zero, suc, ◌+◌, ◌-◌, ◌*◌, ◌/◌, ◌^◌, ◌==◌, if◌then◌else◌, update, Option, some,
}
use fib_so.Prelude.Int.{ℤ, pos, negsuc}
use fib_so.ListHead.{Ptr, Links, init_list_head, list_add, list_del, list_first}
use fib_so.Paging.Entry.{set_present, set_rw, set_user, set_pbase_addr, pbase_addr}
use fib_so.Paging.Table.{PageTable, at_entry}
use fib_so.Paging.Frames.{PhysMem, alloc_frame, free_frame, init_frames}
use fib_so.Phase2.Kernel.{
  Run, done, ◌>>=◌, lift, st_run, st_ready, Space, Layout, Kernel, list_of, kids_of,
  list_head_to_task_struct, on_links, set_task, set_state, TaskState,
}
use fib_so.Phase2.Space.{
  num_pag_kernel, num_pag_code, num_pag_data, pag_log_init_code, pag_log_init_data, on_table,
}
use fib_so.Phase2.Sched.{set_quantum}
use fib_so.Phase2.Fork.{allocate_dir, default_quantum}

abbrev pub nr_tasks : ℕ
nr_tasks = 10

-- Entry 0 of each page directory, as the loop over the directories from `i` on sets it; the page
-- tables stand one behind the other from `pagusr_table` on.
pub init_dirs : ℕ → ℕ → ℕ → (ℕ → ℕ) → ℕ → ℕ
init_dirs zero i pagusr_table dirs = dirs
init_dirs (suc n) i pagusr_table dirs =
    let d0 : ℕ → ℕ = update dirs i 0 in
    let d1 : ℕ → ℕ = update d0 i (set_pbase_addr (d0 i) ((pagusr_table + 4096 * i) / 4096)) in
    let d2 : ℕ → ℕ = update d1 i (set_user (d1 i) 1) in
    let d3 : ℕ → ℕ = update d2 i (set_rw (d2 i) 1) in
    init_dirs n (i + 1) pagusr_table (update d3 i (set_present (d3 i) 1))

pub init_dir_pages : ℕ → (ℕ → ℕ) → ℕ → ℕ
init_dir_pages pagusr_table dirs = init_dirs nr_tasks 0 pagusr_table dirs

-- `for (i = i; i < i + n; i++) pagusr_table[j][i].entry = 0;`
pub reset_entries : ℕ → ℕ → PageTable → PageTable
reset_entries zero i pt = pt
reset_entries (suc n) i pt = reset_entries n (i + 1) (at_entry pt i (λ e. 0))

-- The kernel's pages, each on the frame of the same number.
pub kernel_entries : ℕ → ℕ → PageTable → PageTable
kernel_entries zero i pt = pt
kernel_entries (suc n) i pt =
    let pt1 : PageTable = at_entry pt i (λ e. set_pbase_addr e i) in
    let pt2 : PageTable = at_entry pt1 i (λ e. set_rw e 1) in
    kernel_entries n (i + 1) (at_entry pt2 i (λ e. set_present e 1))

pub init_tables : ℕ → ℕ → (ℕ → PageTable) → ℕ → PageTable
init_tables zero j tables = tables
init_tables (suc n) j tables =
    let pt : PageTable = kernel_entries 255 1 (reset_entries 1024 0 (tables j)) in
    init_tables n (j + 1) (λ d. if d == j then pt else tables d)

pub init_table_pages : (ℕ → PageTable) → ℕ → PageTable
init_table_pages tables = init_tables nr_tasks 0 tables

-- The `unsigned` that an int is converted to.
abbrev pub unsigned : ℤ → ℕ
unsigned (pos n) = n
unsigned (negsuc n) = 2 ^ 32 - (n + 1)

-- The entries that set_user_pages makes for a page of code and for a page of data.
pub code_entry : PageTable → ℕ → ℕ → PageTable
code_entry pt page frame =
    let pt1 : PageTable = at_entry pt page (λ e. 0) in
    let pt2 : PageTable = at_entry pt1 page (λ e. set_pbase_addr e frame) in
    let pt3 : PageTable = at_entry pt2 page (λ e. set_user e 1) in
    at_entry pt3 page (λ e. set_present e 1)

pub data_entry : PageTable → ℕ → ℕ → PageTable
data_entry pt page frame =
    let pt1 : PageTable = at_entry pt page (λ e. 0) in
    let pt2 : PageTable = at_entry pt1 page (λ e. set_pbase_addr e frame) in
    let pt3 : PageTable = at_entry pt2 page (λ e. set_user e 1) in
    let pt4 : PageTable = at_entry pt3 page (λ e. set_rw e 1) in
    at_entry pt4 page (λ e. set_present e 1)

-- A loop of set_user_pages over the `n` pages from `page` on.
pub user_pages : (PageTable → ℕ → ℕ → PageTable) → ℕ → ℕ → ℕ → Space → Space
user_pages entry zero page d sp = sp
user_pages entry (suc n) page d sp =
    let a : ℤ × PhysMem = alloc_frame sp.phys in
    let sp1 : Space = record sp { phys = a.1 } in
    user_pages entry n (page + 1) d (on_table d (λ pt. entry pt page (unsigned a.0)) sp1)

pub set_user_pages : ℕ → Space → Space
set_user_pages d sp =
    let code : Space = user_pages code_entry num_pag_code pag_log_init_code d sp in
    user_pages data_entry num_pag_data pag_log_init_data d code

-- The loop of free_user_pages, with the data pages from the `pag`-th on.
pub free_from : ℕ → ℕ → ℕ → Space → Space
free_from zero pag d sp = sp
free_from (suc n) pag d sp =
    let page : ℕ = pag_log_init_data + pag in
    let sp1 : Space = record sp { phys = free_frame (pbase_addr (sp.tables d page)) sp.phys } in
    free_from n (pag + 1) d (on_table d (λ pt. at_entry pt page (λ e. 0)) sp1)

pub free_user_pages : ℕ → Space → Space
free_user_pages d sp = free_from num_pag_data 0 d sp

-- The tables and the byte map of frames that init_mm leaves.
pub init_mm : Space → Space
init_mm sp =
    let sp1 : Space = record sp { tables = init_table_pages sp.tables } in
    record sp1 { phys = init_frames sp1.phys }

-- The structures of the task array from the `i`-th on are put into the free queue.
pub add_tasks : ℕ → ℕ → Layout → Links → Run Links
add_tasks zero i l h = done h
add_tasks (suc n) i l h = do
  h ← lift (list_add (list_of (l.task + 4096 * i)) l.freequeue h)
  add_tasks n (i + 1) l h

-- The fields of a first process that are set before its list of children.
pub start_task : ℕ → TaskState → Ptr → Kernel → Kernel
start_task pid s t k =
    let k1 : Kernel = set_task t (record (k.task t) { pid = pid }) k in
    let k2 : Kernel = set_quantum t default_quantum k1 in
    let k3 : Kernel = set_task t (record (k2.task t) { pending_unblocks = 0 }) k2 in
    set_state t s k3

module _ (l : Layout) where
  pub init_sched : Kernel → Run Kernel
  init_sched k = do
    k ← on_links (init_list_head l.freequeue) k
    k ← on_links (init_list_head l.readyqueue) k
    k ← on_links (init_list_head l.blocked) k
    h ← add_tasks nr_tasks 0 l k.links
    done (record k { links = h; queue_ticks = default_quantum })

  -- What init_idle does behind the initialisation of the list of children, and init_task1.
  pub finish_idle : Ptr → Kernel → Kernel
  finish_idle t k =
      let k1 : Kernel = allocate_dir l t k in
      record k1 {
        stack = update k1.stack t (update (update (k1.stack t) 1022 0) 1023 l.cpu_idle);
        task = update k1.task t (record (k1.task t) { kernel_esp = t + 4 * 1022 });
        idle_task = t;
      }

  pub finish_task1 : Ptr → Kernel → Kernel
  finish_task1 t k =
      let k1 : Kernel = allocate_dir l t k in
      record k1 {
        space = set_user_pages (k1.task t).dir k1.space;
        tss_esp0 = t + 4096;
        msr_esp = t + 4096;
        cr3 = (k1.task t).dir;
        task1 = t;
      }

  pub init_idle : Kernel → Run Kernel
  init_idle k = do
    first_free ← lift (list_first l.freequeue k.links)
    k ← on_links (list_del first_free) k
    let idle_pcb = list_head_to_task_struct first_free
    k ← on_links (init_list_head (kids_of idle_pcb)) (start_task 0 st_ready idle_pcb k)
    done (finish_idle idle_pcb k)

  pub init_task1 : Kernel → Run Kernel
  init_task1 k = do
    first_free ← lift (list_first l.freequeue k.links)
    k ← on_links (list_del first_free) k
    let task1_pcb = list_head_to_task_struct first_free
    k ← on_links (init_list_head (kids_of task1_pcb)) (start_task 1 st_run task1_pcb k)
    done (finish_task1 task1_pcb k)
