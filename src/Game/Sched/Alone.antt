-- ===== src/Game/Sched/Alone.antt =====
-- so2_old/GAME/zeos/sched.c: a forced task switch of the only process that can run.
use fib_so.Prelude.{◌%◌, ◌≡◌, ◌≢◌, ◌∙◌, refl, arith, true, []}
use fib_so.ListHead.{Ptr}
use fib_so.ListHead.Ring.{IsRing}
use fib_so.ListHead.Ring.Insert.{list_add_tail-append}
use fib_so.ListHead.Ring.Delete.{list_del-IsRing}
use fib_so.Phase2.Kernel.{done, st_run, list_of, is_run}
use fib_so.Game.Kernel.{Layout, Kernel, current, update_system, update_ready}
use fib_so.Game.Sched.{dispatch, inner_task_switch, get_quantum, enqueued, force_task_switch}
use fib_so.Game.Sched.Rotate.{preempt, next, current-esp}
use fib_so.Game.Sched.Switch.{Requeued, enqueued-Requeued, force_task_switch-next}

-- A switch from a process to itself.
dispatch-itself :
    (c : Ptr) (k : Kernel)
    → current k ≡ c
    → ((dispatch c k).esp ≡ (k.task c).register_esp)
      × (((dispatch c k).task c).state ≡ st_run)
      × (((dispatch c k).task c).register_esp ≡ k.esp)
      × ((dispatch c k).links ≡ k.links)
unfolding dispatch inner_task_switch get_quantum update_system update_ready current
dispatch-itself c k here = (ground arith, ground arith, ground arith, refl)

current-aligned : (k : Kernel) → current k % 4096 ≡ 0
unfolding current
current-aligned k = omega arith

module _ (l : Layout) (k : Kernel) where
  -- A forced task switch with no other process ready: the process is put into the ready queue and
  -- taken out again, which leaves the queue empty; it goes on at the stack pointer that was saved
  -- when it was last switched from, and not at that of its call, which is saved in its place.
  pub force_task_switch-stale :
      IsRing k.links l.readyqueue []
      → list_of (current k) ≢ l.readyqueue
      → is_run (k.task (current k)).state ≡ true
      → (k' : Kernel) × (force_task_switch l k ≡ done k')
        × IsRing k'.links l.readyqueue []
        × ((k'.task (current k)).state ≡ st_run)
        × (k'.esp ≡ (k.task (current k)).register_esp)
        × ((k'.task (current k)).register_esp ≡ k.esp)
  force_task_switch-stale r ne running =
      let c : Ptr = current k in
      let n : Ptr = list_of c in
      let a = list_add_tail-append n r (omega arith) (ground arith) in
      let d = list_del-IsRing [] n [] a.2 in
      let k0 : Kernel = record k { links = a.0 } in
      let k1 : Kernel = enqueued l c l.readyqueue k0 in
      let q : Requeued k0 c k1 = enqueued-Requeued l k0 c in
      let k2 : Kernel = record k1 { links = d.0 } in
      let same : current k2 ≡ c = current-esp k k2 q.esp in
      let t = dispatch-itself c k2 same in
      (
        dispatch c k2,
        force_task_switch-next l k k1 (preempt l k a.0 running r.head_mapped a.1)
            ∙ next l k1 c [] d.0 (rw q.links a.2) (current-aligned k) (rw q.links d.1),
        rw t.3 d.2,
        t.1,
        t.0 ∙ q.pointers c,
        t.2 ∙ q.esp,
      )
