-- ===== src/Phase2/Boot/First.antt =====
-- so2_old/E1_E2/zeos/sched.c: the idle process and the first user process.
use fib_so.Prelude.{◌+◌, ◌-◌, ◌/◌, ◌<◌, ◌^◌, ◌≡◌, ◌≢◌, refl, some, List, [], ◌∷◌, arith}
use fib_so.ListHead.{Ptr, Links, init_list_head, list_del}
use fib_so.ListHead.Ring.{IsRing}
use fib_so.ListHead.Ring.Insert.{init_list_head-IsRing}
use fib_so.ListHead.Ring.Walk.{list_first-first}
use fib_so.Phase2.Kernel.{done, st_run, st_ready, Layout, Kernel, list_of, kids_of, set_links}
use fib_so.Phase2.Kernel.Queues.{Queues, Loose, Queues-frame, pop_free}
use fib_so.Phase2.Sched.{set_quantum}
use fib_so.Phase2.Sched.Next.{list_head_to_task_struct-list_of}
use fib_so.Phase2.Fork.{allocate_dir, default_quantum}
use fib_so.Phase2.Boot.{
  start_task, finish_idle, finish_task1, init_idle, init_task1, set_user_pages,
}

-- The links when the structure `n` has left the free queue and has an empty list of children.
abbrev Started : Layout → Ptr → List Ptr → List Ptr → List Ptr → Links → Type 0
Started l n rest ready blk h =
    (g : Links) × (list_del (list_of n) h ≡ some g)
    × (g' : Links) × (init_list_head (kids_of n) g ≡ some g')
    × Queues l g' rest ready blk
    × Loose l rest ready blk (list_of n)
    × IsRing g' (kids_of n) []

started :
    (l : Layout) (n : Ptr) (rest ready blk : List Ptr) (h : Links)
    → Queues l h (list_of n ∷ rest) ready blk
    → Loose l (list_of n ∷ rest) ready blk (kids_of n)
    → Started l n rest ready blk h
started l n rest ready blk h q kids =
    let o = pop_free (list_of n) rest q in
    let i = init_list_head-IsRing (kids_of n) o.0 kids.ne_null in
    (
      o.0,
      o.1,
      i.0,
      i.1,
      Queues-frame (kids_of n ∷ []) o.2 i.3 λ a m. (
        ground (arith, kids.not_free),
        ground (arith, kids.not_ready),
        ground (arith, kids.not_blocked),
      ),
      o.3,
      i.2,
    )

module _ (l : Layout) (k : Kernel) {rest ready blk : List Ptr} (n : Ptr) where
  -- init_idle makes the first free structure the idle process: number 0, ready but in no queue, with
  -- no children and a stack that makes it start in cpu_idle.
  pub init_idle-Loose :
      Queues l k.links (list_of n ∷ rest) ready blk
      → Loose l (list_of n ∷ rest) ready blk (kids_of n)
      → n < 2 ^ 32
      → (k' : Kernel) × (init_idle l k ≡ done k')
        × (k'.idle_task ≡ n)
        × Queues l k'.links rest ready blk
        × Loose l rest ready blk (list_of n)
        × IsRing k'.links (kids_of n) []
        × (k'.task n ≡ record (k.task n) {
          pid = 0;
          dir = (n - l.task) / 4096;
          state = st_ready;
          quantum = default_quantum;
          pending_unblocks = 0;
          kernel_esp = n + 4088;
        })
        × (k'.stack n 1022 ≡ 0)
        × (k'.stack n 1023 ≡ l.cpu_idle)
        × ((u : Ptr) → u ≢ n → k'.task u ≡ k.task u)
  unfolding init_idle start_task finish_idle set_quantum allocate_dir
  init_idle-Loose q kids small =
      let s = started l n rest ready blk k.links q kids in
      (
        finish_idle l n (set_links (start_task 0 st_ready n (set_links k s.0)) s.2),
        rw (
          list_first-first (list_of n ∷ rest) q.free_ring,
          s.1,
          list_head_to_task_struct-list_of n small,
          s.3,
        ),
        refl,
        s.4,
        s.5,
        s.6,
        ground arith,
        ground arith,
        ground arith,
        λ u ne. ground arith,
      )

  -- init_task1 makes the first free structure the first user process: number 1, running, in no queue
  -- and with no children; its directory is loaded, its user pages are set up, and its kernel stack
  -- stands in the TSS and in the register of sysenter.
  pub init_task1-Loose :
      Queues l k.links (list_of n ∷ rest) ready blk
      → Loose l (list_of n ∷ rest) ready blk (kids_of n)
      → n < 2 ^ 32
      → (k' : Kernel) × (init_task1 l k ≡ done k')
        × (k'.task1 ≡ n)
        × Queues l k'.links rest ready blk
        × Loose l rest ready blk (list_of n)
        × IsRing k'.links (kids_of n) []
        × (k'.task n ≡ record (k.task n) {
          pid = 1;
          dir = (n - l.task) / 4096;
          state = st_run;
          quantum = default_quantum;
          pending_unblocks = 0;
        })
        × (k'.space ≡ set_user_pages ((n - l.task) / 4096) k.space)
        × (k'.cr3 ≡ (n - l.task) / 4096)
        × (k'.tss_esp0 ≡ n + 4096)
        × (k'.msr_esp ≡ n + 4096)
        × ((u : Ptr) → u ≢ n → k'.task u ≡ k.task u)
  unfolding init_task1 start_task finish_task1 set_quantum allocate_dir
  init_task1-Loose q kids small =
      let s = started l n rest ready blk k.links q kids in
      (
        finish_task1 l n (set_links (start_task 1 st_run n (set_links k s.0)) s.2),
        rw (
          list_first-first (list_of n ∷ rest) q.free_ring,
          s.1,
          list_head_to_task_struct-list_of n small,
          s.3,
        ),
        refl,
        s.4,
        s.5,
        s.6,
        ground arith,
        ground arith,
        ground arith,
        refl,
        refl,
        λ u ne. ground arith,
      )
