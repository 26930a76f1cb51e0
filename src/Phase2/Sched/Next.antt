-- ===== src/Phase2/Sched/Next.antt =====
-- so2_old/E1_E2/zeos/sched.c: which process sched_next_rr runs, and in what state it leaves the
-- kernel.
use fib_so.Prelude.{◌+◌, ◌^◌, ◌<◌, ◌≡◌, ◌≢◌, refl, false, some, List, [], ◌∷◌, arith}
use fib_so.ListHead.{Ptr, Links, list_del}
use fib_so.ListHead.Ring.Walk.{list_empty-is_nil, list_first-first}
use fib_so.Phase2.Kernel.{
  done, TaskState, st_run, Layout, Kernel, list_of, list_head_to_task_struct, current, set_links,
  set_state, is_run,
}
use fib_so.Phase2.Kernel.Queues.{Queues, Loose, pop_ready}
use fib_so.Phase2.Sched.{
  inner_task_switch, leave_queue, update_process_state_rr, select_next, sched_next_rr,
}

pub list_head_to_task_struct-list_of :
    (t : Ptr) → t < 2 ^ 32 → list_head_to_task_struct (list_of t) ≡ t
unfolding list_head_to_task_struct
list_head_to_task_struct-list_of t h = omega arith

-- The processor has gone from the running process of `k` to `t`: its stack, its address space and
-- its quantum are loaded, and the stack pointer of the process before is saved.
pub record Dispatched (k : Kernel) (t : Ptr) (k' : Kernel) : Type 0 where
  pub stack_pointer : k'.esp ≡ (k.task t).kernel_esp
  pub ticks : k'.queue_ticks ≡ (k.task t).quantum
  pub directory : k'.cr3 ≡ (k.task t).dir
  pub kernel_stack : k'.tss_esp0 ≡ t + 4096
  pub sysenter_stack : k'.msr_esp ≡ t + 4096
  pub saved : (k'.task (current k)).kernel_esp ≡ k.esp
  pub others : (u : Ptr) → u ≢ t → u ≢ current k → k'.task u ≡ k.task u
  pub space : k'.space ≡ k.space

-- Of the process that ran before nothing but the stack pointer has changed.
abbrev pub Kept : Kernel → Ptr → Kernel → Type 0
Kept k t k' =
    current k ≢ t → k'.task (current k) ≡ record (k.task (current k)) { kernel_esp = k.esp }

-- The state after a switch to `t`, whose state has been set to `s` before.
abbrev pub dispatched : Ptr → TaskState → Links → Kernel → Kernel
dispatched t s g k =
    let k1 : Kernel = set_state t s (set_links k g) in
    inner_task_switch t (record k1 { queue_ticks = (k1.task t).quantum })

pub dispatched-Dispatched :
    (t : Ptr) (s : TaskState) (g : Links) (k : Kernel)
    → Dispatched k t (dispatched t s g k)
      × (((dispatched t s g k).task t).state ≡ s)
      × Kept k t (dispatched t s g k)
unfolding inner_task_switch current
dispatched-Dispatched t s g k = (
  record {
    stack_pointer = ground arith;
    ticks = ground arith;
    directory = ground arith;
    kernel_stack = refl;
    sysenter_stack = refl;
    saved = ground arith;
    others = λ u a b. ground arith;
    space = refl;
  },
  ground arith,
  λ ne. ground arith,
)

module _ {l : Layout} (k : Kernel) where
  -- Out of the ready queue and onto the processor.
  pub select_next-ready :
      {free blk : List Ptr} (t : Ptr) (rest : List Ptr) (g : Links)
      → Queues l k.links free (list_of t ∷ rest) blk
      → t < 2 ^ 32
      → is_run (k.task t).state ≡ false
      → list_del (list_of t) k.links ≡ some g
      → select_next l k ≡ done (t, set_state t st_run (set_links k g))
  unfolding select_next update_process_state_rr leave_queue
  select_next-ready t rest g q small waiting del =
      let some_ready = list_empty-is_nil (list_of t ∷ rest) q.ready_ring in
      let head = list_first-first (list_of t ∷ rest) q.ready_ring in
      let owner = list_head_to_task_struct-list_of t small in
      rw (some_ready, head, owner, waiting, del)

  pub select_next-idle :
      {free blk : List Ptr} → Queues l k.links free [] blk → select_next l k ≡ done (k.idle_task, k)
  unfolding select_next
  select_next-idle q = rw (list_empty-is_nil [] q.ready_ring)

module _ {l : Layout} {k : Kernel} {free blk : List Ptr} where
  -- With a ready process, sched_next_rr takes the first off the ready queue and leaves the other
  -- queues alone; that process is running, and its stack, address space and quantum are loaded.
  pub sched_next_rr-ready :
      (t : Ptr) (rest : List Ptr)
      → Queues l k.links free (list_of t ∷ rest) blk
      → t < 2 ^ 32
      → is_run (k.task t).state ≡ false
      → (k' : Kernel) × (sched_next_rr l k ≡ done k')
        × Queues l k'.links free rest blk
        × Loose l free rest blk (list_of t)
        × ((k'.task t).state ≡ st_run)
        × Dispatched k t k'
        × Kept k t k'
  unfolding sched_next_rr inner_task_switch
  sched_next_rr-ready t rest q small waiting =
      let r = pop_ready (list_of t) rest q in
      let d = dispatched-Dispatched t st_run r.0 k in
      (
        dispatched t st_run r.0 k,
        rw (select_next-ready k t rest r.0 q small waiting r.1),
        r.2,
        r.3,
        d.1,
        d.0,
        d.2,
      )

  -- With no ready process, sched_next_rr runs the idle process, whose state and queues it leaves as
  -- they were.
  pub sched_next_rr-idle :
      Queues l k.links free [] blk
      → (k' : Kernel) × (sched_next_rr l k ≡ done k')
        × (k'.links ≡ k.links)
        × ((k'.task k.idle_task).state ≡ (k.task k.idle_task).state)
        × Dispatched k k.idle_task k'
        × Kept k k.idle_task k'
  unfolding sched_next_rr inner_task_switch current
  sched_next_rr-idle q =
      let k' : Kernel =
        inner_task_switch k.idle_task (record k { queue_ticks = (k.task k.idle_task).quantum }) in
      (
        k',
        rw (select_next-idle k q),
        refl,
        ground arith,
        record {
          stack_pointer = refl;
          ticks = refl;
          directory = refl;
          kernel_stack = refl;
          sysenter_stack = refl;
          saved = ground arith;
          others = λ u a b. ground arith;
          space = refl;
        },
        λ ne. ground arith,
      )
