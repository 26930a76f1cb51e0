-- ===== src/Phase2/Kernel/Queues.antt =====
-- so2_old/E1_E2/zeos/sched.c: the three queues of the kernel as well-formed lists that share no
-- entry, and how insertion and removal change one and leave the others alone.
use fib_so.Prelude.{
  ◌≡◌, ◌≢◌, true, false, some, List, [], ◌∷◌, ◌++◌, arith, has, has-append, Bool-cases, inl, inr,
}
use fib_so.ListHead.{Ptr, null, Links, list_add_tail, list_del}
use fib_so.ListHead.Ring.{IsRing, SameOutside, IsRing-frame}
use fib_so.ListHead.Ring.Insert.{list_add_tail-append}
use fib_so.ListHead.Ring.Delete.{list_del-IsRing, AllDistinct-delete}
use fib_so.Phase2.Kernel.{Layout}

abbrev pub Apart : List Ptr → List Ptr → Type 0
Apart xs ys = (a : Ptr) → has a xs ≡ true → has a ys ≡ false

pub Apart-sym : (xs ys : List Ptr) → Apart xs ys → Apart ys xs
Apart-sym xs ys apart a i = elim (Bool-cases (has a xs)) [
  | inl both ↦ ground (arith, apart a)
  | inr out ↦ out
]

-- The entries of the free queue, the ready queue and the queue of blocked processes.
pub record Queues (l : Layout) (h : Links) (free ready blk : List Ptr) : Type 0 where
  pub free_ring : IsRing h l.freequeue free
  pub ready_ring : IsRing h l.readyqueue ready
  pub blocked_ring : IsRing h l.blocked blk
  pub free_ready : Apart (l.freequeue ∷ free) (l.readyqueue ∷ ready)
  pub free_blocked : Apart (l.freequeue ∷ free) (l.blocked ∷ blk)
  pub ready_blocked : Apart (l.readyqueue ∷ ready) (l.blocked ∷ blk)

-- `n` is the `list` of a process in none of the queues.
pub record Loose (l : Layout) (free ready blk : List Ptr) (n : Ptr) : Type 0 where
  pub ne_null : n ≢ null
  pub not_free : has n (l.freequeue ∷ free) ≡ false
  pub not_ready : has n (l.readyqueue ∷ ready) ≡ false
  pub not_blocked : has n (l.blocked ∷ blk) ≡ false

-- None of the addresses is an entry or the head of a queue.
abbrev pub Clear : Layout → List Ptr → List Ptr → List Ptr → List Ptr → Type 0
Clear l free ready blk zs =
    (a : Ptr)
    → has a zs ≡ true
    → (has a (l.freequeue ∷ free) ≡ false)
      × (has a (l.readyqueue ∷ ready) ≡ false)
      × (has a (l.blocked ∷ blk) ≡ false)

-- A change elsewhere leaves the queues as they are.
pub Queues-frame :
    {l : Layout} {h g : Links} {free ready blk : List Ptr} (zs : List Ptr)
    → Queues l h free ready blk
    → SameOutside zs h g
    → Clear l free ready blk zs
    → Queues l g free ready blk
Queues-frame {l} {h} {g} {free} {ready} {blk} zs q same clear = record {
  free_ring =
      IsRing-frame zs q.free_ring same (Apart-sym zs (l.freequeue ∷ free) (λ a i. (clear a i).0));
  ready_ring =
      IsRing-frame zs q.ready_ring same
        (Apart-sym zs (l.readyqueue ∷ ready) (λ a i. (clear a i).1));
  blocked_ring =
      IsRing-frame zs q.blocked_ring same (Apart-sym zs (l.blocked ∷ blk) (λ a i. (clear a i).2));
  free_ready = q.free_ready;
  free_blocked = q.free_blocked;
  ready_blocked = q.ready_blocked;
}

module _ {l : Layout} {h : Links} where
  pub push_ready :
      {free ready blk : List Ptr} (n : Ptr)
      → Queues l h free ready blk
      → Loose l free ready blk n
      → (g : Links) × (list_add_tail n l.readyqueue h ≡ some g)
        × Queues l g free (ready ++ n ∷ []) blk
        × SameOutside (n ∷ l.readyqueue ∷ ready) h g
  push_ready {free} {ready} {blk} n q loose =
      let r = list_add_tail-append n q.ready_ring loose.ne_null loose.not_ready in
      let zs = n ∷ l.readyqueue ∷ ready in
      (
        r.0,
        r.1,
        record {
          free_ring =
              IsRing-frame zs q.free_ring r.3 λ a i. ground (arith, q.free_ready a, loose.not_free);
          ready_ring = r.2;
          blocked_ring = IsRing-frame zs q.blocked_ring r.3 λ a i. ground (
            arith,
            Apart-sym (l.readyqueue ∷ ready) (l.blocked ∷ blk) q.ready_blocked a,
            loose.not_blocked,
          );
          free_ready =
              λ a i. ground (arith, q.free_ready a, loose.not_free, has-append a ready (n ∷ []));
          free_blocked = q.free_blocked;
          ready_blocked = λ a i.
              ground (arith, q.ready_blocked a, loose.not_blocked, has-append a ready (n ∷ []));
        },
        r.3,
      )

  pub push_blocked :
      {free ready blk : List Ptr} (n : Ptr)
      → Queues l h free ready blk
      → Loose l free ready blk n
      → (g : Links) × (list_add_tail n l.blocked h ≡ some g)
        × Queues l g free ready (blk ++ n ∷ [])
        × SameOutside (n ∷ l.blocked ∷ blk) h g
  push_blocked {free} {ready} {blk} n q loose =
      let r = list_add_tail-append n q.blocked_ring loose.ne_null loose.not_blocked in
      let zs = n ∷ l.blocked ∷ blk in
      (
        r.0,
        r.1,
        record {
          free_ring =
              IsRing-frame zs q.free_ring r.3
                λ a i. ground (arith, q.free_blocked a, loose.not_free);
          ready_ring =
              IsRing-frame zs q.ready_ring r.3
                λ a i. ground (arith, q.ready_blocked a, loose.not_ready);
          blocked_ring = r.2;
          free_ready = q.free_ready;
          free_blocked =
              λ a i. ground (arith, q.free_blocked a, loose.not_free, has-append a blk (n ∷ []));
          ready_blocked =
              λ a i. ground (arith, q.ready_blocked a, loose.not_ready, has-append a blk (n ∷ []));
        },
        r.3,
      )

  pub push_free :
      {free ready blk : List Ptr} (n : Ptr)
      → Queues l h free ready blk
      → Loose l free ready blk n
      → (g : Links) × (list_add_tail n l.freequeue h ≡ some g)
        × Queues l g (free ++ n ∷ []) ready blk
        × SameOutside (n ∷ l.freequeue ∷ free) h g
  push_free {free} {ready} {blk} n q loose =
      let r = list_add_tail-append n q.free_ring loose.ne_null loose.not_free in
      let zs = n ∷ l.freequeue ∷ free in
      (
        r.0,
        r.1,
        record {
          free_ring = r.2;
          ready_ring = IsRing-frame zs q.ready_ring r.3 λ a i. ground (
            arith,
            Apart-sym (l.freequeue ∷ free) (l.readyqueue ∷ ready) q.free_ready a,
            loose.not_ready,
          );
          blocked_ring = IsRing-frame zs q.blocked_ring r.3 λ a i. ground (
            arith,
            Apart-sym (l.freequeue ∷ free) (l.blocked ∷ blk) q.free_blocked a,
            loose.not_blocked,
          );
          free_ready =
              λ a i. ground (arith, q.free_ready a, loose.not_ready, has-append a free (n ∷ []));
          free_blocked = λ a i.
              ground (arith, q.free_blocked a, loose.not_blocked, has-append a free (n ∷ []));
          ready_blocked = q.ready_blocked;
        },
        r.3,
      )

  -- The first entry leaves the ready queue, and is then in none of the queues.
  pub pop_ready :
      {free blk : List Ptr} (n : Ptr) (rest : List Ptr)
      → Queues l h free (n ∷ rest) blk
      → (g : Links) × (list_del n h ≡ some g)
        × Queues l g free rest blk
        × Loose l free rest blk n
        × SameOutside (l.readyqueue ∷ n ∷ rest) h g
  pop_ready {free} {blk} n rest q =
      let r = list_del-IsRing [] n rest q.ready_ring in
      let zs = l.readyqueue ∷ n ∷ rest in
      (
        r.0,
        r.1,
        record {
          free_ring = IsRing-frame zs q.free_ring r.5 λ a i. q.free_ready a i;
          ready_ring = r.2;
          blocked_ring =
              IsRing-frame zs q.blocked_ring r.5
                λ a i. Apart-sym (l.readyqueue ∷ n ∷ rest) (l.blocked ∷ blk) q.ready_blocked a i;
          free_ready = λ a i. ground (arith, q.free_ready a i);
          free_blocked = q.free_blocked;
          ready_blocked = λ a i. ground (arith, q.ready_blocked a);
        },
        record {
          ne_null = ground (arith, q.ready_ring.mapped);
          not_free =
              Apart-sym (l.freequeue ∷ free) (l.readyqueue ∷ n ∷ rest) q.free_ready n
                (ground arith);
          not_ready = ground (arith, q.ready_ring.distinct.0, q.ready_ring.fresh_head);
          not_blocked = q.ready_blocked n (ground arith);
        },
        r.5,
      )

  -- The first entry leaves the free queue.
  pub pop_free :
      {ready blk : List Ptr} (n : Ptr) (rest : List Ptr)
      → Queues l h (n ∷ rest) ready blk
      → (g : Links) × (list_del n h ≡ some g)
        × Queues l g rest ready blk
        × Loose l rest ready blk n
        × SameOutside (l.freequeue ∷ n ∷ rest) h g
  pop_free {ready} {blk} n rest q =
      let r = list_del-IsRing [] n rest q.free_ring in
      let zs = l.freequeue ∷ n ∷ rest in
      (
        r.0,
        r.1,
        record {
          free_ring = r.2;
          ready_ring =
              IsRing-frame zs q.ready_ring r.5
                λ a i. Apart-sym (l.freequeue ∷ n ∷ rest) (l.readyqueue ∷ ready) q.free_ready a i;
          blocked_ring =
              IsRing-frame zs q.blocked_ring r.5
                λ a i. Apart-sym (l.freequeue ∷ n ∷ rest) (l.blocked ∷ blk) q.free_blocked a i;
          free_ready = λ a i. ground (arith, q.free_ready a);
          free_blocked = λ a i. ground (arith, q.free_blocked a);
          ready_blocked = q.ready_blocked;
        },
        record {
          ne_null = ground (arith, q.free_ring.mapped);
          not_free = ground (arith, q.free_ring.distinct.0, q.free_ring.fresh_head);
          not_ready = q.free_ready n (ground arith);
          not_blocked = q.free_blocked n (ground arith);
        },
        r.5,
      )

  -- An entry leaves the queue of blocked processes.
  pub pop_blocked :
      {free ready : List Ptr} (before : List Ptr) (n : Ptr) (behind : List Ptr)
      → Queues l h free ready (before ++ n ∷ behind)
      → (g : Links) × (list_del n h ≡ some g)
        × Queues l g free ready (before ++ behind)
        × Loose l free ready (before ++ behind) n
        × SameOutside (l.blocked ∷ (before ++ n ∷ behind)) h g
  pop_blocked {free} {ready} before n behind q =
      let r = list_del-IsRing before n behind q.blocked_ring in
      let zs = l.blocked ∷ (before ++ n ∷ behind) in
      let d = has-append n before (n ∷ behind) in
      let out = AllDistinct-delete before n behind q.blocked_ring.distinct in
      (
        r.0,
        r.1,
        record {
          free_ring = IsRing-frame zs q.free_ring r.5 λ a i. q.free_blocked a i;
          ready_ring = IsRing-frame zs q.ready_ring r.5 λ a i. q.ready_blocked a i;
          blocked_ring = r.2;
          free_ready = q.free_ready;
          free_blocked = λ a i. ground (
            arith,
            q.free_blocked a i,
            has-append a before (n ∷ behind),
            has-append a before behind,
          );
          ready_blocked = λ a i. ground (
            arith,
            q.ready_blocked a i,
            has-append a before (n ∷ behind),
            has-append a before behind,
          );
        },
        record {
          ne_null = ground (arith, q.blocked_ring.mapped, has-append null before (n ∷ behind));
          not_free = Apart-sym (l.freequeue ∷ free) zs q.free_blocked n (ground (arith, d));
          not_ready = Apart-sym (l.readyqueue ∷ ready) zs q.ready_blocked n (ground (arith, d));
          not_blocked =
              ground
                (arith, out.1, q.blocked_ring.fresh_head, has-append l.blocked before (n ∷ behind));
        },
        r.5,
      )
