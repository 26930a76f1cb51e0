-- ===== src/Phase2/Fork/Child.antt =====
-- so2_old/E1_E2/zeos/sys.c: the child that sys_fork makes, and the lists that it stands in.
use fib_so.Prelude.{
  ℕ, ◌+◌, ◌-◌, ◌*◌, ◌/◌, ◌<◌, ◌^◌, ◌≡◌, ◌≢◌, ◌∙◌, refl, false, some, List, [], ◌∷◌, ◌++◌, arith,
  has, if◌then◌else◌, update,
}
use fib_so.Prelude.Int.{pos, is_neg}
use fib_so.ListHead.{Ptr, Links, list_add_tail, init_list_head}
use fib_so.ListHead.Ring.{IsRing, SameOutside, first, next-first, IsRing-frame}
use fib_so.ListHead.Ring.Insert.{init_list_head-IsRing, list_add_tail-append}
use fib_so.Paging.Frames.{PhysMem}
use fib_so.Phase2.Kernel.{done, ◌>>=◌, st_ready, Layout, Kernel, Task, list_of, kids_of, current}
use fib_so.Phase2.Kernel.Queues.{Queues, Loose, Clear, Queues-frame, pop_free, push_ready}
use fib_so.Phase2.Space.{alloc_data_frames, build_child}
use fib_so.Phase2.Fork.{default_quantum, copy_links, init_child_with, finish_child, sys_fork}
use fib_so.Phase2.Fork.Prepare.{
  prepared, copy_links-SameOutside, copy_links-Queues, sys_fork-prepared,
}

-- The child's structure and stack, as they differ from the parent's.
abbrev child_task : Layout → Kernel → Ptr → Task
child_task l k n = record (k.task (current k)) {
  dir = (n - l.task) / 4096;
  pid = k.pid_counter;
  parent = current k;
  quantum = default_quantum;
  state = st_ready;
  pending_unblocks = 0;
  kernel_esp = n + 4 * 1005;
}

abbrev child_stack : Layout → Kernel → ℕ → ℕ
child_stack l k = update (update (k.stack (current k)) 1005 0) 1006 l.ret_from_fork

-- What a fork makes of the kernel: `n` is the child's structure, `kids` the parent's children before,
-- `fs` the frames that the child gets and `m` the byte map without them.
pub record Forked (l : Layout) (k : Kernel) (n : Ptr) (rest ready blk kids fs : List ℕ)
    (m : PhysMem) (k' : Kernel) : Type 0 where
  pub queues : Queues l k'.links rest (ready ++ list_of n ∷ []) blk
  pub kids_first :
      k'.links.next (kids_of (current k)) ≡ first (kids ++ list_of n ∷ []) (kids_of (current k))
  pub no_kids : IsRing k'.links (kids_of n) []
  pub child : k'.task n ≡ child_task l k n
  pub others : (u : Ptr) → u ≢ n → k'.task u ≡ k.task u
  pub stack : k'.stack n ≡ child_stack l k
  pub space :
      k'.space
      ≡ build_child fs
          (k.task (current k)).dir
          ((n - l.task) / 4096)
          (record (k.space) { phys = m })
  pub counter : k'.pid_counter ≡ k.pid_counter + 1
  pub stack_pointer : k'.esp ≡ k.esp

-- The kernel when the address space has been built, and when the child's structure is filled in.
abbrev built : Layout → Ptr → List ℕ → PhysMem → Links → Kernel → Kernel
built l n fs m g k =
    let p : Kernel = prepared l g n k in
    let parent : ℕ = (p.task (current k)).dir in
    record p {
      space = build_child fs parent (p.task n).dir (record (k.space) { phys = m });
      cr3 = parent;
    }

abbrev finished : Layout → Ptr → Links → Kernel → Kernel
finished l n h b = record b {
  links = h;
  task = update b.task n (record (b.task n) {
    pid = b.pid_counter;
    parent = current b;
    quantum = default_quantum;
    state = st_ready;
    pending_unblocks = 0;
    kernel_esp = n + 4020;
  });
  stack = update b.stack n (update (update (b.stack n) 1005 0) 1006 l.ret_from_fork);
  pid_counter = b.pid_counter + 1;
}

finish_child-finished :
    (l : Layout) (k : Kernel) (n : Ptr) (fs : List ℕ) (m : PhysMem) (g g1 g2 g3 : Links)
    → init_list_head (kids_of n) (copy_links (current k) n g) ≡ some g1
    → list_add_tail (list_of n) (kids_of (current k)) g1 ≡ some g2
    → list_add_tail (list_of n) l.readyqueue g2 ≡ some g3
    → (init_child_with l n (some fs, m) (prepared l g n k) >>= λ r.
        if is_neg r.0 then done r else finish_child l n r.1)
      ≡ done (pos k.pid_counter, finished l n g3 (built l n fs m g k))
unfolding init_child_with finish_child current
finish_child-finished l k n fs m g g1 g2 g3 init add_kids add_ready = rw (init, add_kids, add_ready)

-- The list of children at `c` stands apart from the queues and from the links of `n`.
pub record Family (l : Layout) (c n : Ptr) (rest ready blk kids : List Ptr) (h : Links)
    : Type 0 where
  pub ring : IsRing h (kids_of c) kids
  pub apart : Clear l (list_of n ∷ rest) ready blk (kids_of c ∷ kids)
  pub child_apart : has (kids_of n) (kids_of c ∷ kids) ≡ false
  pub child_loose : Loose l (list_of n ∷ rest) ready blk (kids_of n)

-- The links when the child has left the free queue, and its own list of children is empty.
record Taken (l : Layout) (c n : Ptr) (rest ready blk kids : List Ptr) (g g1 : Links) : Type 0 where
  init : init_list_head (kids_of n) (copy_links c n g) ≡ some g1
  queues : Queues l g1 rest ready blk
  loose : Loose l rest ready blk (list_of n)
  ring : IsRing g1 (kids_of c) kids
  no_kids : IsRing g1 (kids_of n) []

-- And when the child stands in the parent's list of children and in the ready queue.
record Linked (l : Layout) (c n : Ptr) (rest ready blk kids : List Ptr) (g1 g2 g3 : Links)
    : Type 0 where
  add_kids : list_add_tail (list_of n) (kids_of c) g1 ≡ some g2
  add_ready : list_add_tail (list_of n) l.readyqueue g2 ≡ some g3
  queues : Queues l g3 rest (ready ++ list_of n ∷ []) blk
  kids_first : g3.next (kids_of c) ≡ first (kids ++ list_of n ∷ []) (kids_of c)
  no_kids : IsRing g3 (kids_of n) []

module _ (l : Layout) (h : Links) (c n : Ptr) (rest ready blk kids : List Ptr)
    (f : Family l c n rest ready blk kids h) where
  child-Taken :
      (g : Links)
      → Queues l g rest ready blk
      → Loose l rest ready blk (list_of n)
      → SameOutside (l.freequeue ∷ list_of n ∷ rest) h g
      → (g1 : Links) × Taken l c n rest ready blk kids g g1
  child-Taken g q loose same =
      let own : Loose l (list_of n ∷ rest) ready blk (kids_of n) = f.child_loose in
      let kids1 : Loose l rest ready blk (kids_of n) = record {
        ne_null = own.ne_null;
        not_free = ground (arith, own.not_free);
        not_ready = own.not_ready;
        not_blocked = own.not_blocked;
      } in
      let i = init_list_head-IsRing (kids_of n) (copy_links c n g) own.ne_null in
      let r1 = IsRing-frame (l.freequeue ∷ list_of n ∷ rest) f.ring same λ a h. (f.apart a h).0 in
      let r2 =
        IsRing-frame (list_of n ∷ kids_of n ∷ []) r1 (copy_links-SameOutside c n g)
          λ a h. ground (arith, f.child_apart, f.apart a h) in
      (
        i.0,
        record {
          init = i.1;
          queues = Queues-frame (kids_of n ∷ []) (copy_links-Queues c n q loose kids1) i.3 λ a h. (
            ground (arith, kids1.not_free),
            ground (arith, kids1.not_ready),
            ground (arith, kids1.not_blocked),
          );
          loose = loose;
          ring = IsRing-frame (kids_of n ∷ []) r2 i.3 λ a h. ground (arith, f.child_apart);
          no_kids = i.2;
        },
      )

  child-Linked :
      (g g1 : Links)
      → Taken l c n rest ready blk kids g g1
      → (g2 : Links) × (g3 : Links) × Linked l c n rest ready blk kids g1 g2 g3
  child-Linked g g1 t =
      let own : Loose l (list_of n ∷ rest) ready blk (kids_of n) = f.child_loose in
      let loose : Loose l rest ready blk (list_of n) = t.loose in
      let new : has (list_of n) (kids_of c ∷ kids) ≡ false = ground (arith, f.apart (list_of n)) in
      let a = list_add_tail-append (list_of n) t.ring loose.ne_null new in
      let zs : List Ptr = list_of n ∷ kids_of c ∷ kids in
      let clear : Clear l rest ready blk zs = λ b h. (
        ground (arith, loose.not_free, f.apart b),
        ground (arith, loose.not_ready, f.apart b),
        ground (arith, loose.not_blocked, f.apart b),
      ) in
      let p = push_ready (list_of n) (Queues-frame zs t.queues a.3 clear) loose in
      let own1 = IsRing-frame zs t.no_kids a.3 λ b h. ground (arith, f.child_apart) in
      (
        a.0,
        p.0,
        record {
          add_kids = a.1;
          add_ready = p.1;
          queues = p.2;
          kids_first =
              (p.3 (kids_of c) (ground (arith, f.apart (kids_of c), new))).0
              ∙ next-first a.0 (kids_of c) (kids ++ list_of n ∷ []) (kids_of c) (a.2).chain;
          no_kids =
              IsRing-frame (list_of n ∷ l.readyqueue ∷ ready) own1 p.3
                λ b h. ground (arith, own.not_ready, own.not_free);
        },
      )

finished-Forked :
    (l : Layout) (k : Kernel) (n : Ptr) (rest ready blk kids fs : List ℕ) (m : PhysMem)
    (g g1 g2 g3 : Links)
    → current k ≢ n
    → Linked l (current k) n rest ready blk kids g1 g2 g3
    → Forked l k n rest ready blk kids fs m (finished l n g3 (built l n fs m g k))
unfolding current
finished-Forked l k n rest ready blk kids fs m g g1 g2 g3 ne r = record {
  queues = r.queues;
  kids_first = r.kids_first;
  no_kids = r.no_kids;
  child = ground arith;
  others = λ u out. ground arith;
  stack = ground arith;
  space = ground arith;
  counter = refl;
  stack_pointer = refl;
}

module _ (l : Layout) (k : Kernel) {rest ready blk kids : List Ptr} where
  pub sys_fork-Linked :
      (n : Ptr) (fs : List ℕ) (m : PhysMem)
      → Queues l k.links (list_of n ∷ rest) ready blk
      → Family l (current k) n rest ready blk kids k.links
      → n < 2 ^ 32
      → alloc_data_frames k.space.phys ≡ (some fs, m)
      → (k' : Kernel) × (sys_fork l k ≡ done (pos k.pid_counter, k'))
        × Forked l k n rest ready blk kids fs m k'
  sys_fork-Linked n fs m q f small alloc =
      let o = pop_free (list_of n) rest q in
      let ne : current k ≢ n = λ e. ground (arith, f.child_apart) in
      let t = child-Taken l k.links (current k) n rest ready blk kids f o.0 o.2 o.3 o.4 in
      let r = child-Linked l k.links (current k) n rest ready blk kids f o.0 t.0 t.1 in
      (
        finished l n r.1 (built l n fs m o.0 k),
        sys_fork-prepared l k n rest o.0 (some fs, m) q small o.1 alloc
            ∙ finish_child-finished l k n fs m o.0 t.0 r.0 r.1 t.1.init r.2.add_kids r.2.add_ready,
        finished-Forked l k n rest ready blk kids fs m o.0 t.0 r.0 r.1 ne r.2,
      )

module _ (l : Layout) (k : Kernel) {rest ready blk : List Ptr} where
  -- The first sys_fork of a process: its list of children is empty, and stands, as the list of the
  -- child to be does, apart from the queues, which are well formed. With a free process structure, at
  -- an address of 32 bits, and frames enough, sys_fork returns the child's number, the value of the
  -- process counter. The child is a copy of its parent but for number, directory, parent, quantum,
  -- state, pending unblocks and stack pointer, and has no children; its stack makes it start in
  -- ret_from_fork; its address space is built from the frames allocated. It leaves the front of the
  -- free queue for the end of the ready queue, and the parent's list of children leads to it.
  pub sys_fork-Forked :
      (n : Ptr) (fs : List ℕ) (m : PhysMem)
      → Queues l k.links (list_of n ∷ rest) ready blk
      → Family l (current k) n rest ready blk [] k.links
      → n < 2 ^ 32
      → alloc_data_frames k.space.phys ≡ (some fs, m)
      → (k' : Kernel) × (sys_fork l k ≡ done (pos k.pid_counter, k'))
        × Forked l k n rest ready blk [] fs m k'
  sys_fork-Forked n fs m q f small alloc = sys_fork-Linked l k n fs m q f small alloc
