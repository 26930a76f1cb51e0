-- ===== src/Phase2/Fork/Prepare.antt =====
-- so2_old/E1_E2/zeos/sys.c: sys_fork up to the allocation of the child's frames, and how it ends
-- where there is no process structure or no memory.
use fib_so.Prelude.{
  ℕ, ◌-◌, ◌/◌, ◌<◌, ◌^◌, ◌≡◌, ◌≢◌, ◌∙◌, refl, none, some, Option, List, [], ◌∷◌, ◌++◌, arith,
  if◌then◌else◌, update,
}
use fib_so.Prelude.Int.{is_neg}
use fib_so.ListHead.{Ptr, Links, list_del}
use fib_so.ListHead.Ring.{SameOutside}
use fib_so.ListHead.Ring.Walk.{list_empty-is_nil, list_first-first}
use fib_so.Paging.Frames.{PhysMem}
use fib_so.Phase2.Kernel.{done, ◌>>=◌, Layout, Kernel, list_of, kids_of, current, set_links}
use fib_so.Phase2.Kernel.Queues.{Queues, Loose, Clear, Queues-frame, pop_free, push_free}
use fib_so.Phase2.Sched.Next.{list_head_to_task_struct-list_of}
use fib_so.Phase2.Space.{alloc_data_frames}
use fib_so.Phase2.Fork.{
  enomem, eagain, copy_links, copy_union, allocate_dir, init_child_with, init_child_address_space,
  finish_child, sys_fork,
}

-- The kernel when the child's structure has left the free queue and is a copy of the parent's.
abbrev pub prepared : Layout → Links → Ptr → Kernel → Kernel
prepared l g n k =
    let c : Kernel = copy_union (current k) n (set_links k g) in
    record c { task = update c.task n (record (c.task n) { dir = (n - l.task) / 4096 }) }

pub copy_links-SameOutside :
    (from to : Ptr) (h : Links)
    → SameOutside (list_of to ∷ kids_of to ∷ []) h (copy_links from to h)
copy_links-SameOutside from to h a out = (ground arith, ground arith)

pub copy_links-Queues :
    {l : Layout} {h : Links} {free ready blk : List Ptr} (from to : Ptr)
    → Queues l h free ready blk
    → Loose l free ready blk (list_of to)
    → Loose l free ready blk (kids_of to)
    → Queues l (copy_links from to h) free ready blk
copy_links-Queues {l} {h} {free} {ready} {blk} from to q a b =
    let zs : List Ptr = list_of to ∷ kids_of to ∷ [] in
    let clear : Clear l free ready blk zs = λ z i. (
      ground (arith, a.not_free, b.not_free),
      ground (arith, a.not_ready, b.not_ready),
      ground (arith, a.not_blocked, b.not_blocked),
    ) in
    Queues-frame zs q (copy_links-SameOutside from to h) clear

module _ (l : Layout) (k : Kernel) {ready blk : List Ptr} where
  -- The rest of sys_fork, from the outcome of the allocation on.
  pub sys_fork-prepared :
      (n : Ptr) (rest : List Ptr) (g : Links) (o : Option (List ℕ) × PhysMem)
      → Queues l k.links (list_of n ∷ rest) ready blk
      → n < 2 ^ 32
      → list_del (list_of n) k.links ≡ some g
      → alloc_data_frames k.space.phys ≡ o
      → sys_fork l k ≡ (
          init_child_with l n o (prepared l g n k) >>= λ r.
          if is_neg r.0 then done r else finish_child l n r.1)
  unfolding sys_fork allocate_dir init_child_address_space current
  sys_fork-prepared n rest g o q small del alloc =
      rw
        (
          list_empty-is_nil (list_of n ∷ rest) q.free_ring,
          list_first-first (list_of n ∷ rest) q.free_ring,
          del,
          list_head_to_task_struct-list_of n small,
          alloc,
        )
        refl

  -- With no free process structure sys_fork returns -ENOMEM and changes nothing.
  pub sys_fork-no_pcb : Queues l k.links [] ready blk → sys_fork l k ≡ done (enomem, k)
  unfolding sys_fork
  sys_fork-no_pcb q = rw (list_empty-is_nil [] q.free_ring)

  -- When the frames do not suffice sys_fork returns -EAGAIN, and the structure taken for the child
  -- is in the free queue again, at its end; the other queues, the running process and the process
  -- counter are as before.
  pub sys_fork-no_frames :
      (n : Ptr) (rest : List Ptr) (m : PhysMem)
      → Queues l k.links (list_of n ∷ rest) ready blk
      → Loose l (list_of n ∷ rest) ready blk (kids_of n)
      → n < 2 ^ 32
      → alloc_data_frames k.space.phys ≡ (none, m)
      → (k' : Kernel) × (sys_fork l k ≡ done (eagain, k'))
        × Queues l k'.links (rest ++ list_of n ∷ []) ready blk
        × (k'.space ≡ record (k.space) { phys = m })
        × ((u : Ptr) → u ≢ n → k'.task u ≡ k.task u)
        × (k'.pid_counter ≡ k.pid_counter)
        × (k'.esp ≡ k.esp)
  unfolding init_child_with
  sys_fork-no_frames n rest m q kids small alloc =
      let o = pop_free (list_of n) rest q in
      let kids1 : Loose l rest ready blk (kids_of n) = record {
        ne_null = kids.ne_null;
        not_free = ground (arith, kids.not_free);
        not_ready = kids.not_ready;
        not_blocked = kids.not_blocked;
      } in
      let q1 = copy_links-Queues (current k) n o.2 o.3 kids1 in
      let p = push_free (list_of n) q1 o.3 in
      (
        set_links (record (prepared l o.0 n k) { space = record (k.space) { phys = m } }) p.0,
        sys_fork-prepared n rest o.0 (none, m) q small o.1 alloc ∙ rw (p.1),
        p.2,
        refl,
        λ u ne. ground arith,
        refl,
        refl,
      )
