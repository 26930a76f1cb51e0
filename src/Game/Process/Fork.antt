-- ===== src/Game/Process/Fork.antt =====
-- so2_old/GAME/zeos/sys.c: sys_fork up to the allocation of the child's frames.
use fib_so.Prelude.{
  ℕ, ◌-◌, ◌/◌, ◌%◌, ◌≡◌, ◌≢◌, refl, true, false, some, List, [], ◌∷◌, ◌++◌, ◌==◌, arith, has,
  has-append, update,
}
use fib_so.ListHead.{Ptr, null, Links, list_del, list_add_tail}
use fib_so.ListHead.Ring.{IsRing, SameOutside, IsRing-frame}
use fib_so.ListHead.Ring.Insert.{list_add_tail-append}
use fib_so.ListHead.Ring.Delete.{list_del-IsRing}
use fib_so.ListHead.Ring.Walk.{list_empty-is_nil, list_first-first}
use fib_so.Phase2.Kernel.{done, list_of}
use fib_so.Phase2.Kernel.Queues.{Apart, Apart-sym}
use fib_so.Game.Kernel.{Layout, Kernel, list_head_to_task_struct, current}
use fib_so.Game.Space.{map_data_pages}
use fib_so.Game.Process.{enomem, copy_links, copy_union, allocate_dir, fork_with, sys_fork}

-- The two queues, which share no entry.
pub record Queues (l : Layout) (h : Links) (free ready : List Ptr) : Type 0 where
  pub free_ring : IsRing h l.freequeue free
  pub ready_ring : IsRing h l.readyqueue ready
  pub apart : Apart (l.freequeue ∷ free) (l.readyqueue ∷ ready)

-- The links when the structure `n` has left the free queue and holds the parent's.
pub record Taken (l : Layout) (from n : Ptr) (rest ready : List Ptr) (h g : Links) : Type 0 where
  pub del : list_del (list_of n) h ≡ some g
  pub queues : Queues l (copy_links from n g) rest ready
  pub not_free : has (list_of n) (l.freequeue ∷ rest) ≡ false
  pub not_ready : has (list_of n) (l.readyqueue ∷ ready) ≡ false

pub take_free :
    (l : Layout) (from n : Ptr) (rest ready : List Ptr) (h : Links)
    → Queues l h (list_of n ∷ rest) ready
    → (g : Links) × Taken l from n rest ready h g
take_free l from n rest ready h q =
    let o = list_del-IsRing [] (list_of n) rest q.free_ring in
    let free : IsRing h l.freequeue (list_of n ∷ rest) = q.free_ring in
    let not_free : has (list_of n) (l.freequeue ∷ rest) ≡ false =
      ground (arith, free.fresh_head, free.distinct) in
    let not_ready : has (list_of n) (l.readyqueue ∷ ready) ≡ false =
      q.apart (list_of n) (ground arith) in
    let ready1 =
      IsRing-frame (l.freequeue ∷ list_of n ∷ rest) q.ready_ring o.5
        (Apart-sym (l.freequeue ∷ list_of n ∷ rest) (l.readyqueue ∷ ready) q.apart) in
    let copied : SameOutside (list_of n ∷ []) o.0 (copy_links from n o.0) =
      λ a out. (ground arith, ground arith) in
    (
      o.0,
      record {
        del = o.1;
        queues = record {
          free_ring = IsRing-frame (list_of n ∷ []) o.2 copied (λ a i. ground (arith, not_free));
          ready_ring =
              IsRing-frame (list_of n ∷ []) ready1 copied (λ a i. ground (arith, not_ready));
          apart = λ a i. q.apart a (ground arith);
        };
        not_free = not_free;
        not_ready = not_ready;
      },
    )

module _ {l : Layout} {h : Links} {free ready : List Ptr} (n : Ptr) (q : Queues l h free ready)
    (ne : n ≢ null) (not_free : has n (l.freequeue ∷ free) ≡ false)
    (not_ready : has n (l.readyqueue ∷ ready) ≡ false) where
  -- A structure in neither queue goes to the end of one of them.
  pub push_ready :
      (g : Links) × (list_add_tail n l.readyqueue h ≡ some g) × Queues l g free (ready ++ n ∷ [])
  push_ready =
      let r = list_add_tail-append n q.ready_ring ne not_ready in
      (
        r.0,
        r.1,
        record {
          free_ring =
              IsRing-frame (n ∷ l.readyqueue ∷ ready) q.free_ring r.3
                λ a i. ground (arith, q.apart a, not_free);
          ready_ring = r.2;
          apart = λ a i. ground (arith, q.apart a, not_free, has-append a ready (n ∷ []));
        },
      )

  pub push_free :
      (g : Links) × (list_add_tail n l.freequeue h ≡ some g) × Queues l g (free ++ n ∷ []) ready
  push_free =
      let r = list_add_tail-append n q.free_ring ne not_free in
      (
        r.0,
        r.1,
        record {
          free_ring = r.2;
          ready_ring = IsRing-frame (n ∷ l.freequeue ∷ free) q.ready_ring r.3 λ a i.
              ground
                (arith, Apart-sym (l.freequeue ∷ free) (l.readyqueue ∷ ready) q.apart a, not_ready);
          apart = λ a i. ground (arith, q.apart a, not_ready, has-append a free (n ∷ []));
        },
      )

-- The first of the ready queue leaves it.
pub pop_ready :
    {l : Layout} {h : Links} {free ready : List Ptr} (n : Ptr)
    → Queues l h free (n ∷ ready)
    → (g : Links) × (list_del n h ≡ some g) × Queues l g free ready
pop_ready {l} {h} {free} {ready} n q =
    let o = list_del-IsRing [] n ready q.ready_ring in
    (
      o.0,
      o.1,
      record {
        free_ring = IsRing-frame (l.readyqueue ∷ n ∷ ready) q.free_ring o.5 q.apart;
        ready_ring = o.2;
        apart = λ a i. ground (arith, q.apart a i);
      },
    )

-- And the first of the free queue.
pub pop_free :
    {l : Layout} {h : Links} {free ready : List Ptr} (n : Ptr)
    → Queues l h (n ∷ free) ready
    → (g : Links) × (list_del n h ≡ some g) × Queues l g free ready
pop_free {l} {h} {free} {ready} n q =
    let o = list_del-IsRing [] n free q.free_ring in
    (
      o.0,
      o.1,
      record {
        free_ring = o.2;
        ready_ring =
            IsRing-frame (l.freequeue ∷ n ∷ free) q.ready_ring o.5
              (Apart-sym (l.freequeue ∷ n ∷ free) (l.readyqueue ∷ ready) q.apart);
        apart = λ a i. q.apart a (ground arith);
      },
    )

-- The kernel when the child's structure has left the free queue and is a copy of the parent's.
abbrev pub prepared : Layout → Ptr → Links → Kernel → Kernel
prepared l n g k =
    let c : Kernel = copy_union (current k) n (record k { links = g }) in
    record c { task = update c.task n (record (c.task n) { dir = (n - l.task) / 4096 }) }

module _ (l : Layout) (ebp : ℕ) (k : Kernel) where
  pub sys_fork-prepared :
      (n : Ptr) (rest : List Ptr) (g : Links)
      → IsRing k.links l.freequeue (list_of n ∷ rest)
      → n % 4096 ≡ 0
      → list_del (list_of n) k.links ≡ some g
      → sys_fork l ebp k
        ≡ fork_with l ebp n (map_data_pages ((n - l.task) / 4096) k.space) (prepared l n g k)
  unfolding sys_fork allocate_dir list_head_to_task_struct current
  sys_fork-prepared n rest g r aligned del =
      let owner : list_of n - list_of n % 4096 ≡ n = omega arith in
      let same : (n == n) ≡ true = ground arith in
      rw
        (
          list_empty-is_nil (list_of n ∷ rest) r,
          list_first-first (list_of n ∷ rest) r,
          del,
          owner,
          same,
        )
        refl

  -- With no free process structure sys_fork returns -ENOMEM and changes nothing.
  pub sys_fork-no_struct : IsRing k.links l.freequeue [] → sys_fork l ebp k ≡ done (enomem, k)
  unfolding sys_fork
  sys_fork-no_struct r = rw (list_empty-is_nil [] r)
