-- ===== src/Game/Reach/Switch.antt =====
-- so2_old/GAME/zeos/sched.c: sched_next_rr, where every structure has its place before and after.
use fib_so.Prelude.{
  inl, inr, Bool-cases, ==_iff, ◌-◌, ◌%◌, ◌≡◌, ◌≢◌, ◌∙◌, ap, sym, refl, true, false, arith, ◌==◌,
  has, List, [], ◌∷◌,
}
use fib_so.ListHead.{Ptr}
use fib_so.ListHead.Ring.{IsRing}
use fib_so.Phase2.Kernel.{done, list_of}
use fib_so.Game.Kernel.{Layout, Kernel}
use fib_so.Game.Sched.{sched_next_rr, dispatch}
use fib_so.Game.Sched.Rotate.{next}
use fib_so.Game.Sched.Switch.{Switched, dispatch-Switched, next_idle}
use fib_so.Game.Process.Fork.{Queues, pop_ready}
use fib_so.Game.Reach.{owner, Node, Parts, Covered, Sound}

-- A node of the task array is that of a structure.
pub Node-list_of : (l : Layout) (a : Ptr) → Node l a → (t : Ptr) × (a ≡ list_of t) × (t % 4096 ≡ 0)
Node-list_of l a n = (a - 8, omega arith, omega arith)

-- A saved stack pointer stays in its own stack, and that of the process that has run gets there.
Switched-stack :
    (k : Kernel) (c t : Ptr) (k' : Kernel)
    → Switched k c t k'
    → owner k.esp ≡ c
    → (u : Ptr) → (u ≢ c → owner (k.task u).register_esp ≡ u)
    → owner (k'.task u).register_esp ≡ u
Switched-stack k c t k' s here u own = elim (Bool-cases (u == c)) [
  | inl same ↦ let e : u ≡ c = (==_iff u c).0 same in rw e (ap owner s.saved ∙ here)
  | inr other ↦ let ne : u ≢ c = λ e. ground arith in ap owner (s.pointers u ne) ∙ own ne
]

module _ (l : Layout) (k : Kernel) (c : Ptr) {free : List Ptr} (here : owner k.esp ≡ c) where
  -- The first ready process runs next.
  pub next-Sound :
      (t : Ptr) (rest : List Ptr)
      → Parts l k c free (list_of t ∷ rest)
      → t % 4096 ≡ 0
      → c ≢ t
      → Covered l k k.idle_task free (list_of t ∷ rest)
      → (k' : Kernel) × (sched_next_rr l k ≡ done k') × Sound l k' t free rest
  next-Sound t rest p aligned ne all =
      let q : Queues l k.links free (list_of t ∷ rest) = p.queues in
      let ring : IsRing k.links l.readyqueue (list_of t ∷ rest) = q.ready_ring in
      let o = pop_ready (list_of t) q in
      let k1 : Kernel = record k { links = o.0 } in
      let k2 : Kernel = dispatch t k1 in
      let s : Switched k1 c t k2 = dispatch-Switched t c k1 here ne in
      let inside : has (list_of t) (list_of t ∷ rest) ≡ true = ground arith in
      let stack = Switched-stack k1 c t k2 s here in
      let apart : has (list_of t) free ≡ false = elim (Bool-cases (has (list_of t) free)) [
        | inl i ↦ absurd (ground (arith, q.apart (list_of t)))
        | inr i ↦ i
      ] in
      (
        k2,
        next l k t rest o.0 ring aligned o.1,
        record {
          parts = record {
            queues = rw s.links o.2;
            free_node = p.free_node;
            ready_node = λ a i. p.ready_node a (ground arith);
            idle_node = rw s.idle p.idle_node;
            idle_busy = rw s.idle p.idle_busy;
            idle_stack = λ o. rw s.idle (stack k.idle_task p.idle_stack);
            ready_stack = λ u i o. stack u (p.ready_stack u (ground arith));
            waiting =
                λ u i. s.states u (λ e. ground (arith, ring.distinct)) ∙ p.waiting u (ground arith);
          };
          here = rw s.esp (p.ready_stack t inside (λ e. ne (sym e)));
          node = p.ready_node (list_of t) inside;
          not_free = apart;
          not_ready = ring.distinct.0;
          running = s.running;
          covered = λ j lt. ground (arith, all j lt, s.idle);
        },
      )

  -- With no ready process the idle one does.
  pub next_idle-Sound :
      Parts l k c free []
      → c ≢ k.idle_task
      → Covered l k k.idle_task free []
      → (k' : Kernel) × (sched_next_rr l k ≡ done k') × Sound l k' k.idle_task free []
  next_idle-Sound p ne all =
      let q : Queues l k.links free [] = p.queues in
      let k2 : Kernel = dispatch k.idle_task k in
      let s : Switched k c k.idle_task k2 = dispatch-Switched k.idle_task c k here ne in
      let stack = Switched-stack k c k.idle_task k2 s here in
      (
        k2,
        next_idle l k q.ready_ring,
        record {
          parts = record {
            queues = rw s.links q;
            free_node = p.free_node;
            ready_node = λ a i. p.ready_node a i;
            idle_node = rw s.idle p.idle_node;
            idle_busy = rw s.idle p.idle_busy;
            idle_stack = λ o. rw s.idle (stack k.idle_task p.idle_stack);
            ready_stack = λ u i o. stack u (p.ready_stack u i);
            waiting = λ u i. absurd (ground arith);
          };
          here = rw s.esp (p.idle_stack (λ e. ne (sym e)));
          node = p.idle_node;
          not_free = p.idle_busy;
          not_ready = refl;
          running = s.running;
          covered = λ j lt. ground (arith, all j lt, s.idle);
        },
      )
