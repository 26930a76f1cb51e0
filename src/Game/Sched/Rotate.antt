-- ===== src/Game/Sched/Rotate.antt =====
-- so2_old/GAME/zeos/sched.c: a forced task switch, and the statistics it keeps.
use fib_so.Prelude.{
  ℕ, ◌+◌, ◌-◌, ◌%◌, ◌^◌, ◌<◌, ◌≡◌, ◌≢◌, ◌∙◌, ap, sym, refl, arith, ◌==◌, true, false, some, List,
  [], ◌∷◌, ◌++◌, has,
}
use fib_so.ListHead.{Ptr, null, Links, list_add_tail, list_del}
use fib_so.ListHead.Ring.{IsRing}
use fib_so.ListHead.Ring.Insert.{list_add_tail-append}
use fib_so.ListHead.Ring.Delete.{list_del-IsRing}
use fib_so.ListHead.Ring.Walk.{list_empty-is_nil, list_first-first}
use fib_so.Phase2.Kernel.{done, st_run, st_ready, list_of, is_run}
use fib_so.Game.Kernel.{
  Stats, Task, Layout, Kernel, list_head_to_task_struct, current, update_system, update_ready,
}
use fib_so.Game.Sched.{
  leave_queue, enqueued, update_process_state_rr, select_next, get_quantum, dispatch,
  inner_task_switch, sched_next_rr, force_task_switch,
}

-- The four counters account for all ticks since `start`, up to the last update.
abbrev pub Balanced : ℕ → Stats → Type 0
Balanced start s =
    (s.elapsed_total_ticks < 2 ^ 32)
    × ((start + s.user_ticks + s.system_ticks + s.blocked_ticks + s.ready_ticks) % 2 ^ 32
        ≡ s.elapsed_total_ticks)

-- They do for each process; the ticks read are 32-bit words.
abbrev pub Accounts : (Ptr → ℕ) → Kernel → Type 0
Accounts start k = (u : Ptr) → Balanced (start u) (k.task u).p_stats

abbrev pub IsClock : Kernel → Type 0
IsClock k = (n : ℕ) → k.clock n < 2 ^ 32

update_system-Accounts :
    (start : Ptr → ℕ) (t : Ptr) (k : Kernel)
    → IsClock k
    → Accounts start k
    → Accounts start (update_system t k)
unfolding update_system
update_system-Accounts start t k word ok u =
    (ground (arith, ok u, ok t, word k.reads), ground (arith, ok u, ok t, word k.reads))

update_ready-Accounts :
    (start : Ptr → ℕ) (t : Ptr) (k : Kernel)
    → IsClock k
    → Accounts start k
    → Accounts start (update_ready t k)
unfolding update_ready
update_ready-Accounts start t k word ok u =
    (ground (arith, ok u, ok t, word k.reads), ground (arith, ok u, ok t, word k.reads))

enqueued-Accounts :
    (l : Layout) (start : Ptr → ℕ) (t : Ptr) (k : Kernel)
    → IsClock k
    → Accounts start k
    → Accounts start (enqueued l t l.readyqueue k)
unfolding enqueued
enqueued-Accounts l start t k word ok u =
    let same : (l.readyqueue == l.readyqueue) ≡ true = ground arith in
    let b = update_system-Accounts start t k word ok in
    rw same (ground (arith, b u, b t), ground (arith, b u, b t))

-- The state, the directory, the saved stack pointer and the quantum do not depend on statistics.
update_system-kept :
    (t u : Ptr) (k : Kernel) → ((update_system t k).task u).state ≡ (k.task u).state
unfolding update_system
update_system-kept t u k = ground arith

-- What a switch to `t` does.
pub record Dispatched (start : Ptr → ℕ) (k : Kernel) (t : Ptr) (k' : Kernel) : Type 0 where
  pub running : (k'.task t).state ≡ st_run
  pub stack_pointer : k'.esp ≡ (k.task t).register_esp
  pub directory : k'.cr3 ≡ (k.task t).dir
  pub quantum : k'.remaining_quantum ≡ (k.task t).total_quantum
  pub counted : ((k'.task t).p_stats).total_trans ≡ (((k.task t).p_stats).total_trans + 1) % 2 ^ 32
  pub saved : (k'.task (current k)).register_esp ≡ k.esp
  pub states : (u : Ptr) → u ≢ t → (k'.task u).state ≡ (k.task u).state
  pub accounts : Accounts start k'
  pub links : k'.links ≡ k.links
  pub space : k'.space ≡ k.space
  pub numbers : (u : Ptr) → (k'.task u).pid ≡ (k.task u).pid

pub dispatch-Dispatched :
    (start : Ptr → ℕ) (t : Ptr) (k : Kernel)
    → current k ≢ t
    → IsClock k
    → Accounts start k
    → Dispatched start k t (dispatch t k)
unfolding dispatch inner_task_switch get_quantum update_system update_ready current
dispatch-Dispatched start t k ne word ok = record {
  running = ground arith;
  stack_pointer = ground arith;
  directory = ground arith;
  quantum = ground arith;
  counted = ground arith;
  saved = ground arith;
  states = λ u other. ground arith;
  links = refl;
  space = refl;
  numbers = λ u. ground arith;
  accounts = λ u. (
    ground (arith, ok u, ok t, ok (current k), word k.reads, word (k.reads + 1)),
    ground (arith, ok u, ok t, ok (current k), word k.reads, word (k.reads + 1)),
  );
}

module _ (l : Layout) (k : Kernel) where
  -- The running process at the end of the ready queue, with the links `g`.
  pub preempt :
      (g : Links)
      → is_run (k.task (current k)).state ≡ true
      → l.readyqueue ≢ null
      → list_add_tail (list_of (current k)) l.readyqueue k.links ≡ some g
      → update_process_state_rr l (current k) l.readyqueue k
        ≡ done (enqueued l (current k) l.readyqueue (record k { links = g }))
  unfolding update_process_state_rr leave_queue
  preempt g running ne add =
      let there : (l.readyqueue == null) ≡ false = ground arith in rw (running, there, add)

  pub next :
      (t : Ptr) (rest : List Ptr) (g : Links)
      → IsRing k.links l.readyqueue (list_of t ∷ rest)
      → t % 4096 ≡ 0
      → list_del (list_of t) k.links ≡ some g
      → sched_next_rr l k ≡ done (dispatch t (record k { links = g }))
  unfolding sched_next_rr select_next list_head_to_task_struct
  next t rest g r aligned del =
      let owner : list_of t - list_of t % 4096 ≡ t = omega arith in
      rw (list_empty-is_nil (list_of t ∷ rest) r, list_first-first (list_of t ∷ rest) r, del, owner)

enqueued-facts :
    (l : Layout) (k : Kernel) (c t : Ptr)
    → c ≢ t
    → let k1 = enqueued l c l.readyqueue k in
      ((k1.task c).state ≡ st_ready)
      × (k1.task t ≡ k.task t)
      × (k1.esp ≡ k.esp)
      × (k1.links ≡ k.links)
      × (k1.clock ≡ k.clock)
unfolding enqueued update_system
enqueued-facts l k c t ne =
    let same : (l.readyqueue == l.readyqueue) ≡ true = ground arith in
    (rw same (ground arith), rw same (ground arith), rw same refl, rw same refl, rw same refl)

pub current-esp : (k k' : Kernel) → k'.esp ≡ k.esp → current k' ≡ current k
unfolding current
current-esp k k' e = rw e

module _ (l : Layout) (start : Ptr → ℕ) (k : Kernel) where
  -- A forced task switch with a ready process: the running process goes to the end of the ready
  -- queue, the first of the queue runs with its own stack, address space and quantum, its number of
  -- transitions grows by one, and the statistics of every process still account for all its ticks.
  pub force_task_switch-Dispatched :
      (t : Ptr) (rest : List Ptr)
      → IsRing k.links l.readyqueue (list_of t ∷ rest)
      → has (list_of (current k)) (l.readyqueue ∷ list_of t ∷ rest) ≡ false
      → t % 4096 ≡ 0
      → is_run (k.task (current k)).state ≡ true
      → IsClock k
      → Accounts start k
      → (k' : Kernel) × (force_task_switch l k ≡ done k')
        × IsRing k'.links l.readyqueue (rest ++ list_of (current k) ∷ [])
        × ((k'.task (current k)).state ≡ st_ready)
        × ((k'.task t).state ≡ st_run)
        × (k'.esp ≡ (k.task t).register_esp)
        × (k'.cr3 ≡ (k.task t).dir)
        × (k'.remaining_quantum ≡ (k.task t).total_quantum)
        × (((k'.task t).p_stats).total_trans ≡ (((k.task t).p_stats).total_trans + 1) % 2 ^ 32)
        × Accounts start k'
  unfolding force_task_switch
  force_task_switch-Dispatched t rest r out aligned running word ok =
      let c : Ptr = current k in
      let n : Ptr = list_of c in
      let a = list_add_tail-append n r (omega arith) out in
      let d = list_del-IsRing [] (list_of t) (rest ++ n ∷ []) a.2 in
      let k0 : Kernel = record k { links = a.0 } in
      let k1 : Kernel = enqueued l c l.readyqueue k0 in
      let ne : c ≢ t = λ e. ground (arith, out) in
      let f = enqueued-facts l k0 c t ne in
      let k2 : Kernel = record k1 { links = d.0 } in
      let ring : IsRing k1.links l.readyqueue (list_of t ∷ (rest ++ n ∷ [])) = rw (f.3) a.2 in
      let del : list_del (list_of t) k1.links ≡ some d.0 = rw (f.3) d.1 in
      let clock : IsClock k2 = λ i. rw (f.4) (word i) in
      let here : current k2 ≡ c = current-esp k k2 (f.2) in
      let s =
        dispatch-Dispatched start t k2 (λ e. ne (sym here ∙ e)) clock
          (enqueued-Accounts l start c k0 word ok) in
      (
        dispatch t k2,
        rw (preempt l k a.0 running r.head_mapped a.1)
            (next l k1 t (rest ++ n ∷ []) d.0 ring aligned del),
        rw s.links d.2,
        s.states c ne ∙ f.0,
        s.running,
        s.stack_pointer ∙ ap (λ (v : Task). v.register_esp) f.1,
        s.directory ∙ ap (λ (v : Task). v.dir) f.1,
        s.quantum ∙ ap (λ (v : Task). v.total_quantum) f.1,
        s.counted ∙ ap (λ (v : Task). ((v.p_stats).total_trans + 1) % 2 ^ 32) f.1,
        s.accounts,
      )
