-- ===== src/Game/Reach/Exit.antt =====
-- so2_old/GAME/zeos/sys.c: sys_exit keeps every structure in its place.
use fib_so.Prelude.{
  inl, inr, ◌+◌, ◌*◌, ◌≡◌, ◌≢◌, ◌∙◌, subst, some, arith, has-append, has-snoc, List, [], ◌∷◌, ◌++◌,
}
use fib_so.ListHead.{Ptr, Links, list_add_tail}
use fib_so.Phase2.Kernel.{done, list_of}
use fib_so.Game.Kernel.{Layout, Kernel, current}
use fib_so.Game.Process.Fork.{push_free}
use fib_so.Game.Reach.{Parts, Covered, Sound, IsSound}
use fib_so.Game.Reach.Switch.{Node-list_of, next-Sound, next_idle-Sound}
use fib_so.Game.Reach.Rotate.{Node-not_head, Sound-IsSound}
use fib_so.Game.Boot.Queued.{Placed}
use fib_so.Game.Process.{sys_exit}
use fib_so.Game.Process.Exit.{left, sys_exit-left}

module _ (l : Layout) (k : Kernel) {free ready : List Ptr} (placed : Placed l)
    (s : Sound l k (current k) free ready) (user : current k ≢ k.idle_task) where
  -- The kernel before the next process is chosen.
  left-Parts :
      (g : Links) × (list_add_tail (list_of (current k)) l.freequeue k.links ≡ some g)
      × Parts l (left g k) (current k) (free ++ list_of (current k) ∷ []) ready
      × Covered l (left g k) k.idle_task (free ++ list_of (current k) ∷ []) ready
  left-Parts =
      let c : Ptr = current k in
      let e : Ptr = list_of c in
      let p : Parts l k c free ready = s.parts in
      let o =
        push_free e p.queues (omega arith)
          (Node-not_head l e l.freequeue free s.node placed.free_outside s.not_free)
          (Node-not_head l e l.readyqueue ready s.node placed.ready_outside s.not_ready) in
      (
        o.0,
        o.1,
        record {
          queues = o.2;
          free_node =
              λ a i. elim (has-snoc a e free i) [ inl i ↦ p.free_node a i | inr e ↦ rw e s.node ];
          ready_node = p.ready_node;
          idle_node = p.idle_node;
          idle_busy = ground (arith, has-append (list_of k.idle_task) free (e ∷ []), p.idle_busy);
          idle_stack = λ ne. ground (arith, p.idle_stack ne);
          ready_stack = λ u i ne. ground (arith, p.ready_stack u i ne);
          waiting = λ u i. ground (arith, p.waiting u i, s.not_ready);
        },
        λ j lt.
            ground (arith, s.covered j lt, has-append (list_of (l.task + 4096 * j)) free (e ∷ [])),
      )

module _ (l : Layout) (k : Kernel) {free : List Ptr} (placed : Placed l)
    (user : current k ≢ k.idle_task) where
  pub sys_exit-IsSound :
      (ready : List Ptr)
      → Sound l k (current k) free ready
      → (k' : Kernel) × (sys_exit l k ≡ done k') × IsSound l k'
  sys_exit-IsSound [] s =
      let o = left-Parts l k placed s user in
      let n = next_idle-Sound l (left o.0 k) (current k) s.here o.2 user o.3 in
      (n.0, sys_exit-left l k o.0 o.1 ∙ n.1, Sound-IsSound n.2)
  sys_exit-IsSound (a ∷ rest) s =
      let p : Parts l k (current k) free (a ∷ rest) = s.parts in
      let m = Node-list_of l a (p.ready_node a (ground arith)) in
      let s1 : Sound l k (current k) free (list_of m.0 ∷ rest) =
        subst (λ a. Sound l k (current k) free (a ∷ rest)) m.1 s in
      let o = left-Parts l k placed s1 user in
      let ne : current k ≢ m.0 = λ e. ground (arith, s1.not_ready) in
      let n = next-Sound l (left o.0 k) (current k) s.here m.0 rest o.2 m.2 ne o.3 in
      (n.0, sys_exit-left l k o.0 o.1 ∙ n.1, Sound-IsSound n.2)
