-- ===== src/Game/Sched/Switch.antt =====
-- so2_old/GAME/zeos/sched.c: the branches of the scheduler, and what a task switch changes but statistics.
use fib_so.Prelude.{◌-◌, ◌%◌, ◌≡◌, ◌≢◌, refl, true, false, arith, ◌==◌, List, [], ◌∷◌}
use fib_so.ListHead.{Ptr}
use fib_so.ListHead.Ring.{IsRing}
use fib_so.ListHead.Ring.Walk.{list_empty-is_nil}
use fib_so.Phase2.Kernel.{done, st_run, st_ready}
use fib_so.Game.Kernel.{Layout, Kernel, current, update_system, update_ready}
use fib_so.Game.Sched.{
  dispatch, select_next, sched_next_rr, inner_task_switch, get_quantum, update_sched_data_rr,
  schedule, needs_sched_rr, is_zero, force_task_switch, update_process_state_rr, enqueued,
}

-- The kernel after dispatch, less statistics and address space.
pub record Switched (k : Kernel) (c t : Ptr) (k' : Kernel) : Type 0 where
  pub links : k'.links ≡ k.links
  pub idle : k'.idle_task ≡ k.idle_task
  pub esp : k'.esp ≡ (k.task t).register_esp
  pub running : (k'.task t).state ≡ st_run
  pub states : (u : Ptr) → u ≢ t → (k'.task u).state ≡ (k.task u).state
  pub saved : (k'.task c).register_esp ≡ k.esp
  pub pointers : (u : Ptr) → u ≢ c → (k'.task u).register_esp ≡ (k.task u).register_esp

pub dispatch-Switched :
    (t c : Ptr) (k : Kernel) → k.esp - k.esp % 4096 ≡ c → c ≢ t → Switched k c t (dispatch t k)
unfolding dispatch inner_task_switch get_quantum update_system update_ready current
dispatch-Switched t c k here ne = record {
  links = refl;
  idle = refl;
  esp = ground arith;
  running = ground arith;
  states = λ u other. ground arith;
  saved = ground arith;
  pointers = λ u other. ground arith;
}

-- The kernel when the process `c` has been put into the ready queue, less statistics.
pub record Requeued (k : Kernel) (c : Ptr) (k' : Kernel) : Type 0 where
  pub links : k'.links ≡ k.links
  pub idle : k'.idle_task ≡ k.idle_task
  pub esp : k'.esp ≡ k.esp
  pub ready : (k'.task c).state ≡ st_ready
  pub states : (u : Ptr) → u ≢ c → (k'.task u).state ≡ (k.task u).state
  pub pointers : (u : Ptr) → (k'.task u).register_esp ≡ (k.task u).register_esp

pub enqueued-Requeued :
    (l : Layout) (k : Kernel) (c : Ptr) → Requeued k c (enqueued l c l.readyqueue k)
unfolding enqueued update_system
enqueued-Requeued l k c =
    let same : (l.readyqueue == l.readyqueue) ≡ true = ground arith in
    record {
      links = rw same refl;
      idle = rw same refl;
      esp = rw same refl;
      ready = rw same (ground arith);
      states = λ u ne. rw same (ground arith);
      pointers = λ u. rw same (ground arith);
    }

module _ (l : Layout) (k : Kernel) where
  -- With no ready process the idle one runs next.
  pub next_idle : IsRing k.links l.readyqueue [] → sched_next_rr l k ≡ done (dispatch k.idle_task k)
  unfolding sched_next_rr select_next
  next_idle r = rw (list_empty-is_nil [] r)

  abbrev pub ticked : Kernel
  ticked = update_sched_data_rr k

  abbrev pub renewed : Kernel
  renewed = record ticked { remaining_quantum = get_quantum (current ticked) ticked }

  -- A tick within the quantum, one at its end with no ready process, and one with some.
  pub schedule-goes_on : is_zero ticked.remaining_quantum ≡ false → schedule l k ≡ done ticked
  unfolding schedule needs_sched_rr update_sched_data_rr
  schedule-goes_on e = rw e

  pub schedule-renews :
      is_zero ticked.remaining_quantum ≡ true
      → IsRing k.links l.readyqueue []
      → schedule l k ≡ done renewed
  unfolding schedule needs_sched_rr update_sched_data_rr
  schedule-renews e r = rw (e, list_empty-is_nil [] r)

  pub schedule-switches :
      (a : Ptr) (rest : List Ptr)
      → is_zero ticked.remaining_quantum ≡ true
      → IsRing k.links l.readyqueue (a ∷ rest)
      → schedule l k ≡ force_task_switch l ticked
  unfolding schedule needs_sched_rr force_task_switch update_sched_data_rr
  schedule-switches a rest e r = rw (e, list_empty-is_nil (a ∷ rest) r)

  pub force_task_switch-next :
      (k1 : Kernel)
      → update_process_state_rr l (current k) l.readyqueue k ≡ done k1
      → force_task_switch l k ≡ sched_next_rr l k1
  unfolding force_task_switch
  force_task_switch-next k1 e = rw e
