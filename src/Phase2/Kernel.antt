-- ===== src/Phase2/Kernel.antt =====
-- so2_old/E1_E2/zeos: the state of the kernel (include/sched.h, sched.c, mm.c, sys.c) and the ways a
-- piece of kernel code can end.
pub mod Queues
use fib_so.Prelude.{ℕ, ◌≡◌, ap, ◌+◌, ◌-◌, ◌%◌, ◌^◌, update, Option, none, some, Bool, true, false}
use fib_so.Prelude.Int.{ℤ}
use fib_so.ListHead.{Ptr, null, Links}
use fib_so.Paging.Table.{PageTable}
use fib_so.Paging.Frames.{PhysMem}
use fib_so.Console.{Screen}

-- `null_access`: the code has used NULL as a pointer, and the model follows it no further. Where page
-- 0 is absent that is a page fault; sys_fork maps page 0 for every child, so a child goes on with the
-- bytes that stand there. `out_of_fuel`: a loop that is still running after the given number of rounds.
pub data Run {ℓ} (A : Type ℓ) : Type ℓ where
  done : A → Run A
  null_access : Run A
  out_of_fuel : Run A

pub done-injective {ℓ} : {A : Type ℓ} (a b : A) → done a ≡ done b → a ≡ b
done-injective a b e = ap (λ r. elim r [ done x ↦ x | null_access ↦ a | out_of_fuel ↦ a ]) e

infixl 5 ◌>>=◌
abbrev pub ◌>>=◌ {ℓ κ} : {A : Type ℓ} {B : Type κ} → Run A → (A → Run B) → Run B
done a >>= f = f a
null_access >>= f = null_access
out_of_fuel >>= f = out_of_fuel

abbrev pub lift {ℓ} : {A : Type ℓ} → Option A → Run A
lift none = null_access
lift (some a) = done a

-- `enum state_t`
pub data TaskState : Type 0 where
  st_run st_ready st_blocked : TaskState

-- `struct task_struct` without its two `list_head`s, which stand in the links of the kernel.
-- `dir_pages_baseAddr` is an index into `dir_pages`.
pub record Task : Type 0 where
  pub pid : ℕ
  pub dir : ℕ
  pub parent : Ptr
  pub state : TaskState
  pub quantum : ℤ
  pub pending_unblocks : ℕ
  pub kernel_esp : ℕ

-- The user's memory: the byte map of the frames, the page table of each directory, and the bytes of
-- each frame.
pub record Space : Type 0 where
  pub phys : PhysMem
  pub tables : ℕ → PageTable
  pub page : ℕ → ℕ → ℕ

-- The addresses that the linker gives to the kernel's variables.
pub record Layout : Type 0 where
  pub task : Ptr
  pub freequeue : Ptr
  pub readyqueue : Ptr
  pub blocked : Ptr
  pub ret_from_fork : ℕ
  pub cpu_idle : ℕ

-- `task` is the task_struct at each address; `stack` the words of the task_union there; `esp` a
-- stack pointer of the running process.
pub record Kernel : Type 0 where
  pub links : Links
  pub task : Ptr → Task
  pub stack : Ptr → ℕ → ℕ
  pub esp : ℕ
  pub queue_ticks : ℤ
  pub pid_counter : ℕ
  pub idle_task : Ptr
  pub task1 : Ptr
  pub space : Space
  pub cr3 : ℕ
  pub tss_esp0 : ℕ
  pub msr_esp : ℕ
  pub screen : Screen

-- `&t->list` and `&t->kids`
abbrev pub list_of : Ptr → Ptr
list_of t = t + 8

abbrev pub kids_of : Ptr → Ptr
kids_of t = t + 16

unfoldable pub list_head_to_task_struct : Ptr → Ptr
list_head_to_task_struct l = (l + 2 ^ 32 - 8) % 2 ^ 32

-- `esp & 0xfffff000`
unfoldable pub current : Kernel → Ptr
current k = k.esp - k.esp % 4096

abbrev pub set_links : Kernel → Links → Kernel
set_links k h = record k { links = h }

abbrev pub on_links : (Links → Option Links) → Kernel → Run Kernel
on_links f k = lift (f k.links) >>= λ h. done (set_links k h)

-- A change of the task_struct at `t`.
abbrev pub set_task : Ptr → Task → Kernel → Kernel
set_task t v k = record k { task = update k.task t v }

abbrev pub set_state : Ptr → TaskState → Kernel → Kernel
set_state t s k = set_task t (record (k.task t) { state = s }) k

abbrev pub is_run : TaskState → Bool
is_run st_run = true
is_run st_ready = false
is_run st_blocked = false

abbrev pub is_blocked : TaskState → Bool
is_blocked st_run = false
is_blocked st_ready = false
is_blocked st_blocked = true
