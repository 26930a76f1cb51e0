-- ===== src/Game/Boot/Started.antt =====
-- so2_old/GAME/zeos/sched.c: the kernel when memory, scheduler and the first two processes are set up.
use fib_so.Prelude.{
  ℕ, ◌+◌, ◌-◌, ◌*◌, ◌/◌, ◌%◌, ◌≤◌, ◌<◌, ◌≡◌, ap, refl, true, some, List, [], ◌∷◌, arith, ◌==◌,
}
use fib_so.Prelude.Int.{pos, negsuc}
use fib_so.ListHead.{Ptr, Links, list_del}
use fib_so.ListHead.Ring.Walk.{list_first-first}
use fib_so.Phase2.Kernel.{done, st_run, list_of}
use fib_so.Game.Kernel.{Layout, Kernel, list_head_to_task_struct, init_stats}
use fib_so.Game.Process.{allocate_dir}
use fib_so.Game.Process.Fork.{Queues, pop_free}
use fib_so.Game.Boot.{
  nr_tasks, default_quantum, init_mm, idle_process, first_process, init_idle, init_task1,
  set_user_pages, start,
}
use fib_so.Game.Boot.Queued.{Placed, entries, init_sched-Queues}

module _ (l : Layout) (k : Kernel) {rest ready : List Ptr} (c : Ptr)
    (q : Queues l k.links (list_of c ∷ rest) ready) (aligned : c % 4096 ≡ 0) where
  -- Both take the first free structure.
  init_idle-idle_process :
      (g : Links)
      → list_del (list_of c) k.links ≡ some g
      → init_idle l k ≡ done (idle_process l c (record k { links = g }))
  unfolding init_idle list_head_to_task_struct
  init_idle-idle_process g del =
      let owner : list_of c - list_of c % 4096 ≡ c = omega arith in
      rw (list_first-first (list_of c ∷ rest) q.free_ring, del, owner) refl

  init_task1-first_process :
      (g : Links)
      → list_del (list_of c) k.links ≡ some g
      → init_task1 l k ≡ done (first_process l c (record k { links = g }))
  unfolding init_task1 list_head_to_task_struct
  init_task1-first_process g del =
      let owner : list_of c - list_of c % 4096 ≡ c = omega arith in
      rw (list_first-first (list_of c ∷ rest) q.free_ring, del, owner) refl

-- The kernel that start leaves.
pub record Started (l : Layout) (k k' : Kernel) : Type 0 where
  pub queues : Queues l k'.links (entries l 8 2) []
  pub idle : k'.idle_task ≡ l.task
  pub idle_number : (k'.task l.task).pid ≡ pos 0
  pub idle_directory : (k'.task l.task).dir ≡ 0
  pub idle_stack_pointer : (k'.task l.task).register_esp ≡ l.task + 4 * 1022
  pub idle_stack : (k'.stack l.task 1023 ≡ l.cpu_idle) × (k'.stack l.task 1022 ≡ 0)
  pub first_number : (k'.task (l.task + 4096)).pid ≡ pos 1
  pub first_running : (k'.task (l.task + 4096)).state ≡ st_run
  pub first_directory : (k'.task (l.task + 4096)).dir ≡ 1
  pub quantum : k'.remaining_quantum ≡ default_quantum
  pub directory : k'.cr3 ≡ 1
  pub stacks : (k'.tss_esp0 ≡ l.task + 8192) × (k'.msr_esp ≡ l.task + 8192)
  pub space : k'.space ≡ set_user_pages 1 (init_mm l k).space
  pub free_numbers : (j : ℕ) → 2 ≤ j → j < nr_tasks → (k'.task (l.task + 4096 * j)).pid ≡ negsuc 0

-- The two processes, on a kernel `k` with the task array `t`.
abbrev with_processes : Layout → Links → Links → Kernel → Kernel
with_processes l g h k =
    first_process l (l.task + 4096 * 1)
      (record (idle_process l (l.task + 4096 * 0) (record k { links = g })) { links = h })

with_processes-Started :
    (l : Layout) (k k1 : Kernel) (g h : Links)
    → Placed l
    → Queues l h (entries l 8 2) []
    → k1.space ≡ (init_mm l k).space
    → ((j : ℕ) → j < nr_tasks → (k1.task (l.task + 4096 * j)).pid ≡ negsuc 0)
    → Started l k (with_processes l g h k1)
unfolding idle_process first_process allocate_dir init_stats
with_processes-Started l k k1 g h p q space numbers =
    let none : l.task + 0 ≡ l.task = omega arith in
    record {
      queues = q;
      idle = none;
      idle_number = ground arith;
      idle_directory = ground arith;
      idle_stack_pointer = ground arith;
      idle_stack = (ground arith, ground arith);
      first_number = ground arith;
      first_running = ground arith;
      first_directory = ground arith;
      quantum = ground arith;
      directory = ground arith;
      stacks = (omega arith, omega arith);
      space =
          let same : (l.task + 4096 == l.task + 4096) ≡ true = ground arith in
          let one : (l.task + 4096 - l.task) / 4096 ≡ 1 = omega arith in
          rw (same, one) (ap (set_user_pages 1) space);
      free_numbers = λ j lo hi. ground (arith, numbers j hi);
    }

module _ (l : Layout) (k : Kernel) where
  -- With the task array aligned and the heads of the queues mapped, distinct and outside it, after
  -- the start of memory, scheduler and the two processes in the order of main: the other eight structures are
  -- free, in order, with the number -1, and none is ready. The idle process is the first structure,
  -- with the number 0, directory 0 and a stack that makes it start in cpu_idle. The second structure
  -- is process 1, running, with the default quantum; its directory is loaded, its user pages are set
  -- up on the page tables of init_mm, and its stack stands in the TSS and in the register of sysenter.
  pub start-Started : Placed l → (k' : Kernel) × (start l k ≡ done k') × Started l k k'
  unfolding start idle_process allocate_dir init_stats
  start-Started p =
      let s = init_sched-Queues l (init_mm l k) p in
      let k1 : Kernel = record (init_mm l k) { links = s.0; task = s.1 } in
      let a = pop_free (list_of (l.task + 4096 * 0)) s.3 in
      let b = pop_free (list_of (l.task + 4096 * 1)) a.2 in
      let k2 : Kernel = idle_process l (l.task + 4096 * 0) (record k1 { links = a.0 }) in
      (
        with_processes l a.0 b.0 k1,
        rw
            (
              s.2,
              init_idle-idle_process l k1 (l.task + 4096 * 0) s.3 (omega (arith, p.aligned)) a.0
                  a.1,
            )
            (init_task1-first_process l k2 (l.task + 4096 * 1) a.2 (omega (arith, p.aligned)) b.0
              b.1),
        with_processes-Started l k k1 a.0 b.0 p b.2 refl s.4,
      )
