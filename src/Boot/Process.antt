-- ===== src/Boot/Process.antt =====
-- zeos/sched.c: the idle process and the first user process of the current kernel, over its memory.
use fib_so.Prelude.{ℕ, ◌+◌, ◌*◌, ◌/◌, ◌%◌, ◌^◌, ◌==◌, if◌then◌else◌, update}
use fib_so.Prelude.Int.{ℤ}
use fib_so.ListHead.{Ptr}
use fib_so.Paging.Entry.{pbase_addr, set_present, set_rw, set_user, set_pbase_addr}
use fib_so.Phase2.Kernel.{TaskState, st_run, st_ready}
use fib_so.Boot.{
  Memory, unsigned, alloc_frame, at_entry, clear_page_table, set_ss_pag, set_kernel_pages,
  set_user_pages,
}

-- `struct task_struct` without its `list`.
pub record Task : Type 0 where
  pub pid : ℕ
  pub dir_pages_base_addr : Ptr
  pub state : TaskState
  pub kernel_esp : ℕ

-- `list` is the address that each list_head's fields hold when INIT_LIST_HEAD has set them.
pub record System : Type 0 where
  pub memory : Memory
  pub task : Ptr → Task
  pub list : Ptr → Ptr
  pub init_task : Ptr
  pub idle_task : Ptr
  pub tss_esp0 : ℕ
  pub msr_esp : ℕ
  pub cr3 : ℕ
  pub cpu_idle : ℕ

-- `get_PT(t)`, as the address of a table; the entry 0 of the directory is read at its address.
get_pt : Ptr → System → Ptr
get_pt t s = pbase_addr (s.memory.words ((s.task t).dir_pages_base_addr / 4)) * 4096

-- A frame for a table or for a structure, as the address `frame << 12`.
abbrev address : ℤ → Ptr
address frame = unsigned frame * 4096 % 2 ^ 32

abbrev with_memory : (Memory → Memory) → System → System
with_memory f s = record s { memory = f s.memory }

pub init_idle : System → System
init_idle s =
    let a : ℤ × Memory = alloc_frame s.memory in
    let b : ℤ × Memory = alloc_frame a.1 in
    let dir : Ptr = address a.0 in
    let task : Ptr = address b.0 in
    let init_spt : ℕ = get_pt s.init_task (record s { memory = b.1 }) / 4 in
    let m1 : Memory = clear_page_table (dir / 4) b.1 in
    let m2 : Memory =
      at_entry (dir / 4) 0 (λ e. m1.words ((s.task s.init_task).dir_pages_base_addr / 4)) m1 in
    let m3 : Memory = set_ss_pag init_spt (unsigned a.0) (unsigned a.0) 0 m2 in
    let m4 : Memory = set_ss_pag init_spt (unsigned b.0) (unsigned b.0) 0 m3 in
    let m5 : Memory = at_entry (task / 4) 1022 (λ e. 0) m4 in
    record s {
      memory = at_entry (task / 4) 1023 (λ e. s.cpu_idle) m5;
      task = update s.task task (record {
        pid = 0;
        dir_pages_base_addr = dir;
        state = st_ready;
        kernel_esp = task + 4 * 1022;
      });
      list = update s.list task (task + 8);
      idle_task = task;
    }

-- Entry `i` of the directory leads to a page table, as init_task1 sets it up.
abbrev directory_entry : ℕ → ℕ → ℕ → ℕ → Memory → Memory
directory_entry dir i frame user m =
    let m1 : Memory = at_entry dir i (λ e. 0) m in
    let m2 : Memory = at_entry dir i (λ e. set_pbase_addr e frame) m1 in
    let m3 : Memory = at_entry dir i (λ e. set_present e 1) m2 in
    let m4 : Memory = at_entry dir i (λ e. set_rw e 1) m3 in
    if user == 1 then at_entry dir i (λ e. set_user e 1) m4 else m4

pub init_task1 : System → System
init_task1 s =
    let a : ℤ × Memory = alloc_frame s.memory in
    let b : ℤ × Memory = alloc_frame a.1 in
    let c : ℤ × Memory = alloc_frame b.1 in
    let d : ℤ × Memory = alloc_frame c.1 in
    let dir : Ptr = address a.0 in
    let spt : ℕ = address b.0 / 4 in
    let upt : ℕ = address c.0 / 4 in
    let task : Ptr = address d.0 in
    let m1 : Memory =
      clear_page_table upt (clear_page_table spt (clear_page_table (dir / 4) d.1)) in
    let m2 : Memory = set_user_pages upt (set_kernel_pages spt m1) in
    let m3 : Memory = set_ss_pag spt (unsigned a.0) (unsigned a.0) 0 m2 in
    let m4 : Memory = set_ss_pag spt (unsigned b.0) (unsigned b.0) 0 m3 in
    let m5 : Memory = set_ss_pag spt (unsigned c.0) (unsigned c.0) 0 m4 in
    let m6 : Memory = set_ss_pag spt (unsigned d.0) (unsigned d.0) 0 m5 in
    let m7 : Memory = directory_entry (dir / 4) 0 (unsigned b.0) 0 m6 in
    record s {
      memory = directory_entry (dir / 4) 1 (unsigned c.0) 1 m7;
      task = update s.task task (record {
        pid = 1;
        dir_pages_base_addr = dir;
        state = st_run;
        kernel_esp = (s.task task).kernel_esp;
      });
      list = update s.list task (task + 8);
      tss_esp0 = task + 4096;
      msr_esp = task + 4096;
      cr3 = dir;
      init_task = task;
    }
