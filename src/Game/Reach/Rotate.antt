-- ===== src/Game/Reach/Rotate.antt =====
-- so2_old/GAME/zeos/sched.c: schedule and force_task_switch keep every structure in its place.
use fib_so.Prelude.{
  inl, inr, Bool-cases, ◌+◌, ◌*◌, ◌%◌, ◌≡◌, ◌≢◌, ◌∙◌, ap, sym, subst, refl, true, false, arith, has,
  has-append, has-snoc, List, [], ◌∷◌, ◌++◌,
}
use fib_so.ListHead.{Ptr}
use fib_so.Phase2.Kernel.{done, list_of}
use fib_so.Game.Kernel.{Layout, Kernel, current}
use fib_so.Game.Sched.{
  update_process_state_rr, force_task_switch, schedule, enqueued, is_zero, update_sched_data_rr,
}
use fib_so.Game.Sched.Rotate.{preempt}
use fib_so.Game.Sched.Switch.{
  Requeued, enqueued-Requeued, ticked, renewed, schedule-goes_on, schedule-renews,
  schedule-switches, force_task_switch-next,
}
use fib_so.Game.Process.Fork.{Queues, push_ready}
use fib_so.Game.Reach.{owner, Node, Parts, Covered, Sound, IsSound}
use fib_so.Game.Reach.Switch.{Node-list_of, next-Sound}
use fib_so.Game.Boot.Queued.{Placed, Outside}

-- A node of a structure is not the head of a queue.
pub Node-not_head :
    (l : Layout) (a h : Ptr) (xs : List Ptr)
    → Node l a
    → Outside l h
    → has a xs ≡ false
    → has a (h ∷ xs) ≡ false
Node-not_head l a h xs n (inl o) out = let ne : a ≢ h = λ e. omega arith in ground arith
Node-not_head l a h xs n (inr o) out = let ne : a ≢ h = λ e. omega arith in ground arith

pub Sound-IsSound :
    {l : Layout} {k : Kernel} {c : Ptr} {free ready : List Ptr}
    → Sound l k c free ready
    → IsSound l k
unfolding current
Sound-IsSound {l} {k} {c} {free} {ready} s =
    (free, ready, subst (λ c. Sound l k c free ready) (sym s.here) s)

module _ (l : Layout) (k : Kernel) {free ready : List Ptr} (placed : Placed l)
    (s : Sound l k (current k) free ready) where
  -- The running process at the end of the ready queue.
  requeue-Parts :
      (k1 : Kernel) × (update_process_state_rr l (current k) l.readyqueue k ≡ done k1)
      × (owner k1.esp ≡ current k)
      × Parts l k1 (current k) free (ready ++ list_of (current k) ∷ [])
      × Covered l k1 k1.idle_task free (ready ++ list_of (current k) ∷ [])
  requeue-Parts =
      let c : Ptr = current k in
      let e : Ptr = list_of c in
      let p : Parts l k c free ready = s.parts in
      let o =
        push_ready e p.queues (omega arith)
          (Node-not_head l e l.freequeue free s.node placed.free_outside s.not_free)
          (Node-not_head l e l.readyqueue ready s.node placed.ready_outside s.not_ready) in
      let k0 : Kernel = record k { links = o.0 } in
      let k1 : Kernel = enqueued l c l.readyqueue k0 in
      let r : Requeued k0 c k1 = enqueued-Requeued l k0 c in
      let split = λ (a : Ptr) (i : has a (ready ++ e ∷ []) ≡ true). has-snoc a e ready i in
      (
        k1,
        preempt l k o.0 (rw s.running refl) placed.ready_mapped o.1,
        rw r.esp s.here,
        record {
          queues = rw r.links o.2;
          free_node = p.free_node;
          ready_node = λ a i. elim (split a i) [ inl i ↦ p.ready_node a i | inr e ↦ rw e s.node ];
          idle_node = rw r.idle p.idle_node;
          idle_busy = rw r.idle p.idle_busy;
          idle_stack = λ ne.
              rw r.idle (ap owner (r.pointers k.idle_task) ∙ p.idle_stack (λ e. ne (r.idle ∙ e)));
          ready_stack = λ u i ne. ap owner (r.pointers u) ∙ (elim (split (list_of u) i) [
            | inl i ↦ p.ready_stack u i ne
            | inr e ↦ absurd (ne (omega arith))
          ]);
          waiting = λ u i. elim (split (list_of u) i) [
            | inl i ↦ r.states u (λ e. ground (arith, s.not_ready)) ∙ p.waiting u i
            | inr e ↦ let same : u ≡ c = omega arith in rw same r.ready
          ];
        },
        λ j lt. ground (
          arith,
          s.covered j lt,
          has-append (list_of (l.task + 4096 * j)) ready (e ∷ []),
          r.idle,
        ),
      )

  -- A tick within the quantum changes no place.
  pub same-Sound :
      (k' : Kernel)
      → k'.links ≡ k.links
      → k'.task ≡ k.task
      → k'.idle_task ≡ k.idle_task
      → owner k'.esp ≡ current k
      → Sound l k' (current k) free ready
  same-Sound k' links task idle here =
      let p : Parts l k (current k) free ready = s.parts in
      record {
        parts = record {
          queues = rw links p.queues;
          free_node = p.free_node;
          ready_node = p.ready_node;
          idle_node = rw idle p.idle_node;
          idle_busy = rw idle p.idle_busy;
          idle_stack = rw (idle, task) p.idle_stack;
          ready_stack = rw task p.ready_stack;
          waiting = rw task p.waiting;
        };
        here = here;
        node = s.node;
        not_free = s.not_free;
        not_ready = s.not_ready;
        running = rw task s.running;
        covered = λ j lt. rw idle (s.covered j lt);
      }

module _ (l : Layout) (k : Kernel) {free : List Ptr} (placed : Placed l) where
  -- A forced switch with a ready process.
  pub force-Sound :
      (t : Ptr) (rest : List Ptr)
      → Sound l k (current k) free (list_of t ∷ rest)
      → t % 4096 ≡ 0
      → (k' : Kernel) × (force_task_switch l k ≡ done k') × IsSound l k'
  force-Sound t rest s aligned =
      let o = requeue-Parts l k placed s in
      let ne : current k ≢ t = λ e. ground (arith, s.not_ready) in
      let n =
        next-Sound l o.0 (current k) o.2 t (rest ++ list_of (current k) ∷ []) o.3 aligned ne o.4 in
      (n.0, force_task_switch-next l k o.0 o.1 ∙ n.1, Sound-IsSound n.2)

  -- Of two processes, or more: the first of the queue, as the node that it is.
  pub force-IsSound :
      (a : Ptr) (rest : List Ptr)
      → Sound l k (current k) free (a ∷ rest)
      → (k' : Kernel) × (force_task_switch l k ≡ done k') × IsSound l k'
  force-IsSound a rest s =
      let p : Parts l k (current k) free (a ∷ rest) = s.parts in
      let n = Node-list_of l a (p.ready_node a (ground arith)) in
      force-Sound n.0 rest (subst (λ a. Sound l k (current k) free (a ∷ rest)) n.1 s) n.2

module _ (l : Layout) (k : Kernel) {free : List Ptr} (placed : Placed l) where
  schedule-cases :
      (ready : List Ptr)
      → Sound l k (current k) free ready
      → is_zero (ticked l k).remaining_quantum ≡ true
      → (k' : Kernel) × (schedule l k ≡ done k') × IsSound l k'
  unfolding update_sched_data_rr current
  schedule-cases [] s e =
      let p : Parts l k (current k) free [] = s.parts in
      let q : Queues l k.links free [] = p.queues in
      (
        renewed l k,
        schedule-renews l k e q.ready_ring,
        Sound-IsSound (same-Sound l k placed s (renewed l k) refl refl refl refl),
      )
  schedule-cases (a ∷ rest) s e =
      let p : Parts l k (current k) free (a ∷ rest) = s.parts in
      let q : Queues l k.links free (a ∷ rest) = p.queues in
      let t = same-Sound l k placed s (ticked l k) refl refl refl refl in
      let f = force-IsSound l (ticked l k) placed a rest t in
      (f.0, schedule-switches l k a rest e q.ready_ring ∙ f.1, f.2)

  pub schedule-IsSound :
      (ready : List Ptr)
      → Sound l k (current k) free ready
      → (k' : Kernel) × (schedule l k ≡ done k') × IsSound l k'
  unfolding update_sched_data_rr current
  schedule-IsSound ready s = elim (Bool-cases (is_zero (ticked l k).remaining_quantum)) [
    | inl e ↦ schedule-cases ready s e
    | inr e ↦ (
      ticked l k,
      schedule-goes_on l k e,
      Sound-IsSound (same-Sound l k placed s (ticked l k) refl refl refl refl),
    )
  ]
