-- ===== src/Game/Reach.antt =====
-- so2_old/GAME/zeos: what the kernel does from the start on, one interrupt or system call at a time
-- (schedule and force_task_switch of sched.c, sys_fork and sys_exit of sys.c), and the states it reaches.
pub mod Exit
pub mod Fork
pub mod Places
pub mod Rotate
pub mod Returns
pub mod Start
pub mod Switch
use fib_so.Prelude.{
  ℕ, ◌+◌, ◌-◌, ◌*◌, ◌%◌, ◌≤◌, ◌<◌, ◌≡◌, ◌≢◌, ◌⊎◌, true, false, some, ◌||◌, ◌==◌, has, List, ◌∷◌,
}
use fib_so.Prelude.Int.{ℤ}
use fib_so.ListHead.{Ptr, list_empty}
use fib_so.Phase2.Kernel.{done, st_run, st_ready, list_of}
use fib_so.Game.Kernel.{Layout, Kernel, current}
use fib_so.Game.Sched.{schedule, force_task_switch}
use fib_so.Game.Process.{sys_fork, sys_exit}
use fib_so.Game.Process.Fork.{Queues}
use fib_so.Game.Boot.{nr_tasks}

-- `a & 0xfffff000`: the structure whose stack `a` points into.
abbrev pub owner : ℕ → Ptr
owner a = a - a % 4096

-- Steps of the kernel `k`. The running process moves the stack pointer within its own stack; the
-- clock ticks; a process other than the idle one calls sys_fork, where `ebp` is the frame pointer in
-- it, calls sys_exit, or gives the processor up while another is ready.
pub data Step (l : Layout) (k k' : Kernel) : Type 0 where
  move : (e : ℕ) → owner e ≡ current k → k' ≡ record k { esp = e } → Step l k k'
  tick : schedule l k ≡ done k' → Step l k k'
  yield :
      list_empty l.readyqueue k.links ≡ some false → force_task_switch l k ≡ done k' → Step l k k'
  fork :
      (ebp : ℕ) (r : ℤ)
      → current k ≢ k.idle_task
      → current k + 8 ≤ ebp
      → ebp < current k + 4096
      → sys_fork l ebp k ≡ done (r, k')
      → Step l k k'
  exit : current k ≢ k.idle_task → sys_exit l k ≡ done k' → Step l k k'

pub data Reach (l : Layout) (k : Kernel) : Kernel → Type 0 where
  stay : Reach l k k
  and_then : {k' k'' : Kernel} → Reach l k k' → Step l k' k'' → Reach l k k''

-- The list node of a structure of the task array.
abbrev pub Node : Layout → Ptr → Type 0
Node l a = (l.task + 8 ≤ a) × (a < l.task + 40960) × (a % 4096 ≡ 8)

-- The two queues hold structures of the task array; the idle process is not free; the saved stack
-- pointer of every process that waits, `c` aside, points into its own stack; the ready ones are in
-- the state ST_READY.
pub record Parts (l : Layout) (k : Kernel) (c : Ptr) (free ready : List Ptr) : Type 0 where
  pub queues : Queues l k.links free ready
  pub free_node : (a : Ptr) → has a free ≡ true → Node l a
  pub ready_node : (a : Ptr) → has a ready ≡ true → Node l a
  pub idle_node : Node l (list_of k.idle_task)
  pub idle_busy : has (list_of k.idle_task) free ≡ false
  pub idle_stack : k.idle_task ≢ c → owner (k.task k.idle_task).register_esp ≡ k.idle_task
  pub ready_stack :
      (u : Ptr) → has (list_of u) ready ≡ true → u ≢ c → owner (k.task u).register_esp ≡ u
  pub waiting : (u : Ptr) → has (list_of u) ready ≡ true → (k.task u).state ≡ st_ready

-- Every structure is in one of the queues, or the idle process, or `c`.
abbrev pub Covered : Layout → Kernel → Ptr → List Ptr → List Ptr → Type 0
Covered l k c free ready =
    (j : ℕ)
    → j < nr_tasks
    → let u : Ptr = l.task + 4096 * j in
      (has (list_of u) free || has (list_of u) ready || (u == k.idle_task) || (u == c)) ≡ true

-- The process `c` runs: it is in no queue and in the state ST_RUN.
pub record Sound (l : Layout) (k : Kernel) (c : Ptr) (free ready : List Ptr) : Type 0 where
  pub parts : Parts l k c free ready
  pub here : owner k.esp ≡ c
  pub node : Node l (list_of c)
  pub not_free : has (list_of c) free ≡ false
  pub not_ready : has (list_of c) ready ≡ false
  pub running : (k.task c).state ≡ st_run
  pub covered : Covered l k c free ready

-- The two queues of a kernel whose running process is found from its stack pointer.
abbrev pub IsSound : Layout → Kernel → Type 0
IsSound l k = (free : List Ptr) × (ready : List Ptr) × Sound l k (current k) free ready
