-- ===== src/Game/Reach/Fork.antt =====
-- so2_old/GAME/zeos/sys.c: sys_fork keeps every structure in its place.
use fib_so.Prelude.{
  ℕ, Bool, inl, inr, ◌+◌, ◌-◌, ◌*◌, ◌/◌, ◌%◌, ◌≤◌, ◌<◌, ◌≡◌, ◌≢◌, ◌∙◌, ap, subst, refl, true, false,
  some, arith, has, has-append, has-snoc, List, [], ◌∷◌, ◌++◌,
}
use fib_so.Prelude.Int.{ℤ, pos}
use fib_so.ListHead.{Ptr, Links, list_add_tail}
use fib_so.Phase2.Kernel.{done, list_of, Space}
use fib_so.Game.Kernel.{Task, Layout, Kernel, current}
use fib_so.Game.Process.Fork.{
  Queues, Taken, take_free, push_free, push_ready, prepared, sys_fork-prepared, sys_fork-no_struct,
}
use fib_so.Game.Reach.{owner, Node, Parts, Sound, IsSound}
use fib_so.Game.Reach.Switch.{Node-list_of}
use fib_so.Game.Reach.Rotate.{Sound-IsSound}
use fib_so.Game.Boot.Queued.{Placed}
use fib_so.Game.Space.{map_data_pages}
use fib_so.Game.Process.{enomem, eagain, fork_with, sys_fork}
use fib_so.Game.Process.Child.{made, made-child, made-others, made-rest, fork_with-made}

module _ (l : Layout) (ebp : ℕ) (k : Kernel) {rest ready : List Ptr} (placed : Placed l) (n : Ptr)
    (aligned : n % 4096 ≡ 0) (s : Sound l k (current k) (list_of n ∷ rest) ready)
    (low : current k + 8 ≤ ebp) (high : ebp < current k + 4096) where
  -- The child at the end of the ready queue.
  made-Sound :
      (g : Links) (t : Taken l (current k) n rest ready k.links g) (sp : Space)
      → (h : Links) × (list_add_tail (list_of n) l.readyqueue (made l ebp n g sp k).links ≡ some h)
        × Sound l
            (record (made l ebp n g sp k) { links = h })
            (current k)
            rest
            (ready ++ list_of n ∷ [])
  made-Sound g t sp =
      let c : Ptr = current k in
      let e : Ptr = list_of n in
      let p : Parts l k c (e ∷ rest) ready = s.parts in
      let other : c ≢ n = λ e. ground (arith, s.not_free) in
      let x : Kernel = made l ebp n g sp k in
      let m = made-rest l ebp k n g sp other in
      let o = push_ready e t.queues (omega arith) t.not_free t.not_ready in
      let node : Node l e = p.free_node e (ground arith) in
      let split = λ (a : Ptr) (i : has a (ready ++ e ∷ []) ≡ true). has-snoc a e ready i in
      let same = made-others l ebp k n g sp other in
      let child = made-child l ebp k n g sp other in
      let old : (u : Ptr) → has (list_of u) ready ≡ true → u ≢ n =
        λ u i e. ground (arith, t.not_ready) in
      let idle : k.idle_task ≢ n = λ e. ground (arith, p.idle_busy) in
      (
        o.0,
        ap (list_add_tail e l.readyqueue) m.0 ∙ o.1,
        record {
          parts = record {
            queues = o.2;
            free_node = λ a i. p.free_node a (ground arith);
            ready_node = λ a i. elim (split a i) [ inl i ↦ p.ready_node a i | inr e ↦ rw e node ];
            idle_node = rw m.4 p.idle_node;
            idle_busy = rw m.4 (ground (arith, p.idle_busy));
            idle_stack = rw m.4 (λ ne.
                ap (λ (v : Task). owner v.register_esp) (same k.idle_task idle) ∙ p.idle_stack ne);
            ready_stack = λ u i ne. elim (split (list_of u) i) [
              | inl i ↦
                  ap (λ (v : Task). owner v.register_esp) (same u (old u i)) ∙ p.ready_stack u i ne
              | inr e ↦
                  let at : u ≡ n = omega arith in
                  let new : owner (ebp - c + n - 4) ≡ n = omega arith in
                  rw at (ap (λ (v : Task). owner v.register_esp) child ∙ new)
            ];
            waiting = λ u i. elim (split (list_of u) i) [
              | inl i ↦ ap (λ (v : Task). v.state) (same u (old u i)) ∙ p.waiting u i
              | inr e ↦ let at : u ≡ n = omega arith in rw at (ap (λ (v : Task). v.state) child)
            ];
          };
          here = rw m.2 s.here;
          node = s.node;
          not_free = ground (arith, s.not_free);
          not_ready = ground (arith, s.not_ready, has-append (list_of c) ready (e ∷ []));
          running = ap (λ (v : Task). v.state) (same c other) ∙ s.running;
          covered = λ j lt. rw m.4 (
              ground
                (arith, s.covered j lt, has-append (list_of (l.task + 4096 * j)) ready (e ∷ [])));
        },
      )

  -- Without frames the structure goes back.
  refused-Sound :
      (g : Links) (t : Taken l (current k) n rest ready k.links g) (sp : Space)
      → (h : Links) × (list_add_tail (list_of n) l.freequeue (prepared l n g k).links ≡ some h)
        × Sound l
            (record (prepared l n g k) { links = h; space = sp })
            (current k)
            (rest ++ list_of n ∷ [])
            ready
  refused-Sound g t sp =
      let c : Ptr = current k in
      let e : Ptr = list_of n in
      let p : Parts l k c (e ∷ rest) ready = s.parts in
      let other : c ≢ n = λ e. ground (arith, s.not_free) in
      let o = push_free e t.queues (omega arith) t.not_free t.not_ready in
      let node : Node l e = p.free_node e (ground arith) in
      let idle : k.idle_task ≢ n = λ e. ground (arith, p.idle_busy) in
      (
        o.0,
        o.1,
        record {
          parts = record {
            queues = o.2;
            free_node = λ a i. elim (has-snoc a e rest i) [
              | inl i ↦ p.free_node a (ground arith)
              | inr e ↦ rw e node
            ];
            ready_node = p.ready_node;
            idle_node = p.idle_node;
            idle_busy = ground (arith, p.idle_busy, has-append (list_of k.idle_task) rest (e ∷ []));
            idle_stack = λ ne. ground (arith, p.idle_stack ne);
            ready_stack = λ u i ne. ground (arith, p.ready_stack u i ne, t.not_ready);
            waiting = λ u i. ground (arith, p.waiting u i, t.not_ready);
          };
          here = s.here;
          node = s.node;
          not_free = ground (arith, s.not_free, has-append (list_of c) rest (e ∷ []));
          not_ready = s.not_ready;
          running = ground (arith, s.running);
          covered = λ j lt.
              ground
                (arith, s.covered j lt, has-append (list_of (l.task + 4096 * j)) rest (e ∷ []));
        },
      )

  fork_with-IsSound :
      (g : Links)
      → Taken l (current k) n rest ready k.links g
      → (o : Bool × Space)
      → (r : ℤ) × (k' : Kernel) × (fork_with l ebp n o (prepared l n g k) ≡ done (r, k'))
        × IsSound l k'
  unfolding fork_with
  fork_with-IsSound g t (true, sp) =
      let other : current k ≢ n = λ e. ground (arith, s.not_free) in
      let m = made-Sound g t sp in
      (
        pos (k.global_pid + 1),
        record (made l ebp n g sp k) { links = m.0 },
        fork_with-made l ebp k n g sp other m.0 m.1,
        Sound-IsSound m.2,
      )
  fork_with-IsSound g t (false, sp) =
      let m = refused-Sound g t sp in
      (
        eagain,
        record (prepared l n g k) { links = m.0; space = sp },
        rw m.1 refl,
        Sound-IsSound m.2,
      )

module _ (l : Layout) (ebp : ℕ) (k : Kernel) {ready : List Ptr} (placed : Placed l)
    (low : current k + 8 ≤ ebp) (high : ebp < current k + 4096) where
  pub sys_fork-IsSound :
      (free : List Ptr)
      → Sound l k (current k) free ready
      → (r : ℤ) × (k' : Kernel) × (sys_fork l ebp k ≡ done (r, k')) × IsSound l k'
  sys_fork-IsSound [] s =
      let p : Parts l k (current k) [] ready = s.parts in
      let q : Queues l k.links [] ready = p.queues in
      (enomem, k, sys_fork-no_struct l ebp k q.free_ring, ([], ready, s))
  sys_fork-IsSound (a ∷ rest) s =
      let p : Parts l k (current k) (a ∷ rest) ready = s.parts in
      let m = Node-list_of l a (p.free_node a (ground arith)) in
      let n : Ptr = m.0 in
      let s1 : Sound l k (current k) (list_of n ∷ rest) ready =
        subst (λ a. Sound l k (current k) (a ∷ rest) ready) m.1 s in
      let p1 : Parts l k (current k) (list_of n ∷ rest) ready = s1.parts in
      let q : Queues l k.links (list_of n ∷ rest) ready = p1.queues in
      let o = take_free l (current k) n rest ready k.links q in
      let t : Taken l (current k) n rest ready k.links o.0 = o.1 in
      let w =
        fork_with-IsSound l ebp k placed n m.2 s1 low high o.0 t
          (map_data_pages ((n - l.task) / 4096) k.space) in
      (w.0, w.1, sys_fork-prepared l ebp k n rest o.0 q.free_ring m.2 t.del ∙ w.2, w.3)
