-- ===== src/Game/Kernel.antt =====
-- so2_old/GAME/zeos: the state of the kernel (include/sched.h, include/stats.h) and the statistics
-- of the processes (p_stats.c).
use fib_so.Prelude.{ℕ, ◌+◌, ◌-◌, ◌%◌, ◌^◌, ◌==◌, if◌then◌else◌, Option}
use fib_so.Prelude.Int.{ℤ}
use fib_so.ListHead.{Ptr, Links}
use fib_so.Phase2.Kernel.{Run, done, ◌>>=◌, lift, TaskState, Space}

-- `struct stats`
pub record Stats : Type 0 where
  pub user_ticks : ℕ
  pub system_ticks : ℕ
  pub blocked_ticks : ℕ
  pub ready_ticks : ℕ
  pub elapsed_total_ticks : ℕ
  pub total_trans : ℕ
  pub remaining_ticks : ℕ

-- `struct task_struct` without its `list`.
pub record Task : Type 0 where
  pub pid : ℤ
  pub dir : ℕ
  pub register_esp : ℕ
  pub state : TaskState
  pub total_quantum : ℤ
  pub p_stats : Stats

-- The addresses of the kernel's variables.
pub record Layout : Type 0 where
  pub task : Ptr
  pub freequeue : Ptr
  pub readyqueue : Ptr
  pub ret_from_fork : ℕ
  pub cpu_idle : ℕ
  pub pagusr_table : ℕ

-- `stack` has the words of the task_union at each address; `clock n` is what the `n`-th reading of the ticks yields, of which `reads` have been made;
-- `dir_pages` has the entry of each directory for the page table.
pub record Kernel : Type 0 where
  pub links : Links
  pub task : Ptr → Task
  pub stack : Ptr → ℕ → ℕ
  pub global_pid : ℕ
  pub dir_pages : ℕ → ℕ
  pub esp : ℕ
  pub remaining_quantum : ℤ
  pub idle_task : Ptr
  pub space : Space
  pub cr3 : ℕ
  pub tss_esp0 : ℕ
  pub msr_esp : ℕ
  pub clock : ℕ → ℕ
  pub reads : ℕ

abbrev pub on_links : (Links → Option Links) → Kernel → Run Kernel
on_links f k = lift (f k.links) >>= λ h. done (record k { links = h })

abbrev pub set_task : Ptr → Task → Kernel → Kernel
set_task t v k = record k { task = λ u. if u == t then v else k.task u }

-- `l & 0xfffff000`
unfoldable pub list_head_to_task_struct : Ptr → Ptr
list_head_to_task_struct l = l - l % 4096

unfoldable pub current : Kernel → Ptr
current k = k.esp - k.esp % 4096

-- `*v += current_ticks - *elapsed` on 32-bit words.
abbrev pub charged : ℕ → ℕ → ℕ → ℕ
charged v elapsed now = (v + (now + 2 ^ 32 - elapsed)) % 2 ^ 32

-- update_stats with the counter of the ticks in the system, of those that are ready, and of those of
-- the user.
unfoldable pub update_system : Ptr → Kernel → Kernel
update_system t k =
    let now : ℕ = k.clock k.reads in
    let s : Stats = (k.task t).p_stats in
    set_task t
      (record (k.task t) {
        p_stats = record s {
          system_ticks = charged s.system_ticks s.elapsed_total_ticks now;
          elapsed_total_ticks = now;
        };
      })
      (record k { reads = k.reads + 1 })

unfoldable pub update_ready : Ptr → Kernel → Kernel
update_ready t k =
    let now : ℕ = k.clock k.reads in
    let s : Stats = (k.task t).p_stats in
    set_task t
      (record (k.task t) {
        p_stats = record s {
          ready_ticks = charged s.ready_ticks s.elapsed_total_ticks now;
          elapsed_total_ticks = now;
        };
      })
      (record k { reads = k.reads + 1 })

unfoldable pub update_user : Ptr → Kernel → Kernel
update_user t k =
    let now : ℕ = k.clock k.reads in
    let s : Stats = (k.task t).p_stats in
    set_task t
      (record (k.task t) {
        p_stats = record s {
          user_ticks = charged s.user_ticks s.elapsed_total_ticks now;
          elapsed_total_ticks = now;
        };
      })
      (record k { reads = k.reads + 1 })

-- init_stats, which reads the ticks twice.
unfoldable pub init_stats : Ptr → Kernel → Kernel
init_stats t k =
    set_task t
      (record (k.task t) {
        p_stats = record {
          user_ticks = 0;
          system_ticks = 0;
          blocked_ticks = 0;
          ready_ticks = 0;
          elapsed_total_ticks = k.clock k.reads;
          total_trans = 0;
          remaining_ticks = k.clock (k.reads + 1);
        };
      })
      (record k { reads = k.reads + 2 })

user_to_system : Kernel → Kernel
user_to_system k = update_user (current k) k

system_to_user : Kernel → Kernel
system_to_user k = update_system (current k) k
