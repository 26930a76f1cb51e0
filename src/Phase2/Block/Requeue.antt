-- ===== src/Phase2/Block/Requeue.antt =====
-- so2_old/E1_E2/zeos/sys.c: where sys_block leaves the process that calls it.
use fib_so.Prelude.{
  ℕ, suc, ◌-◌, ◌^◌, ◌<◌, ◌≡◌, ◌≢◌, ◌∙◌, ap, true, false, some, List, [], ◌∷◌, ◌++◌, append-nil,
  arith, ◌==◌, if◌then◌else◌, Bool-cases, inl, inr, subst,
}
use fib_so.Prelude.Int.{ℤ, is_le_zero, pred_ℤ}
use fib_so.ListHead.{Ptr, null, Links, list_del, list_add_tail}
use fib_so.ListHead.Ring.Walk.{list_empty-is_nil}
use fib_so.Phase2.Kernel.{
  done, st_run, st_ready, st_blocked, Task, Layout, Kernel, list_of, current, set_links, set_state,
  set_task, is_run, is_blocked,
}
use fib_so.Phase2.Kernel.Queues.{Queues, Loose, push_ready, push_blocked, pop_blocked}
use fib_so.Phase2.Sched.{
  get_quantum, update_sched_data_rr, needs_sched_rr, leave_queue, update_process_state_rr,
  sched_next_rr, schedule,
}
use fib_so.Phase2.Sched.Next.{Dispatched, Kept, sched_next_rr-ready}
use fib_so.Phase2.Block.{sys_block}

-- A process in a queue leaves it for the end of the ready queue.
update_process_state_rr-requeued :
    (l : Layout) (k : Kernel) (c : Ptr) (g g' : Links)
    → is_run (k.task c).state ≡ false
    → l.readyqueue ≢ null
    → list_del (list_of c) k.links ≡ some g
    → list_add_tail (list_of c) l.readyqueue g ≡ some g'
    → update_process_state_rr l c l.readyqueue k ≡ done (set_state c st_ready (set_links k g'))
unfolding update_process_state_rr leave_queue
update_process_state_rr-requeued l k c g g' waiting ne del add =
    let there : (l.readyqueue == null) ≡ false = ground arith in
    let same : (l.readyqueue == l.readyqueue) ≡ true = ground arith in
    rw (waiting, del, there, same, add)

-- The kernel when the process that blocks stands in the queue of blocked processes, and when
-- `schedule` has put it into the ready queue.
abbrev pub blocking : Links → Kernel → Kernel
blocking g k = set_links (set_state (current k) st_blocked k) g

abbrev pub ticked : ℤ → Kernel → Kernel
ticked n k = record k { queue_ticks = n }

-- With an expired quantum it is renewed.
abbrev pub ticks_left : Kernel → ℤ
ticks_left k =
    if is_le_zero (pred_ℤ k.queue_ticks) then (k.task (current k)).quantum else pred_ℤ k.queue_ticks

module _ (l : Layout) (k : Kernel) where
  -- A blocked process needs a switch, unless its quantum has expired and no other is ready.
  needs_sched_rr-blocked :
      {free blk : List Ptr} (t : Ptr) (rest : List Ptr)
      → Queues l k.links free (t ∷ rest) blk
      → is_blocked (k.task (current k)).state ≡ true
      → needs_sched_rr l (update_sched_data_rr k) ≡ done (true, ticked (ticks_left k) k)
  unfolding needs_sched_rr update_sched_data_rr get_quantum current
  needs_sched_rr-blocked t rest q blocked = elim (Bool-cases (is_le_zero (pred_ℤ k.queue_ticks))) [
    | inl expired ↦ rw (expired, list_empty-is_nil (t ∷ rest) q.ready_ring)
    | inr lasts ↦ rw (lasts, blocked)
  ]

-- The kernel of a process that has blocked and stands in the ready queue.
abbrev requeued : Links → Links → Kernel → Kernel
requeued g g' k =
    let k1 : Kernel = blocking g k in
    set_state (current k) st_ready (set_links (ticked (ticks_left k1) k1) g')

requeued-state :
    (k : Kernel) (g g' : Links) (t : Ptr) (k' : Kernel)
    → t ≢ current k
    → Dispatched (requeued g g' k) t k'
    → Kept (requeued g g' k) t k'
    → ((k'.task (current k)).state ≡ st_ready) × Dispatched k t k'
unfolding current
requeued-state k g g' t k' ne d kept = (
  ground (arith, kept),
  record {
    stack_pointer = ground (arith, d.stack_pointer);
    ticks = ground (arith, d.ticks);
    directory = ground (arith, d.directory);
    kernel_stack = d.kernel_stack;
    sysenter_stack = d.sysenter_stack;
    saved = d.saved;
    others = λ u a b. ground (arith, d.others u);
    space = d.space;
  },
)

requeued-waiting :
    (k : Kernel) (g g' : Links) (t : Ptr)
    → t ≢ current k
    → is_run (k.task t).state ≡ false
    → is_run ((requeued g g' k).task t).state ≡ false
requeued-waiting k g g' t ne waiting = ground arith

module _ (l : Layout) (k : Kernel) where
  sys_block-requeued :
      {free blk : List Ptr} (t : Ptr) (rest : List Ptr) (g g1 g2 : Links)
      → (k.task (current k)).pending_unblocks ≡ 0
      → list_add_tail (list_of (current k)) l.blocked k.links ≡ some g
      → Queues l g free (t ∷ rest) blk
      → list_del (list_of (current k)) g ≡ some g1
      → list_add_tail (list_of (current k)) l.readyqueue g1 ≡ some g2
      → sys_block l k ≡ sched_next_rr l (requeued g g2 k)
  unfolding sys_block schedule current
  sys_block-requeued t rest g g1 g2 none_pending add q del add_ready =
      let k1 : Kernel = blocking g k in
      let blocked : is_blocked (k1.task (current k1)).state ≡ true = ground arith in
      let waiting : is_run (k1.task (current k)).state ≡ false = ground arith in
      let blocks : ((k.task (current k)).pending_unblocks == 0) ≡ true = ground arith in
      rw (blocks, add, needs_sched_rr-blocked l k1 t rest q blocked)
        (rw (
          update_process_state_rr-requeued l (ticked (ticks_left k1) k1) (current k) g1 g2 waiting
            q.ready_ring.head_mapped del add_ready))

  -- With a pending unblock, sys_block takes one off and changes nothing else.
  pub sys_block-pending :
      (n : ℕ)
      → (k.task (current k)).pending_unblocks ≡ suc n
      → sys_block l k
        ≡ done (set_task (current k) (record (k.task (current k)) { pending_unblocks = n }) k)
  unfolding sys_block
  sys_block-pending n e =
      let pends : ((k.task (current k)).pending_unblocks == 0) ≡ false = ground arith in
      let c : Task = k.task (current k) in
      let less : c.pending_unblocks - 1 ≡ n = omega arith in
      rw pends (ap (λ p. done (set_task (current k) (record c { pending_unblocks = p }) k)) less)

module _ (l : Layout) (k : Kernel) {free blk : List Ptr} where
  -- sys_block of a running process with no pending unblock, while another process is ready: the
  -- first ready process runs, and the process that called stands at the end of the ready queue,
  -- with state ST_READY; the queue of blocked processes is as it was.
  pub sys_block-requeues :
      (t : Ptr) (rest : List Ptr)
      → (k.task (current k)).pending_unblocks ≡ 0
      → Queues l k.links free (list_of t ∷ rest) blk
      → Loose l free (list_of t ∷ rest) blk (list_of (current k))
      → t < 2 ^ 32
      → is_run (k.task t).state ≡ false
      → (k' : Kernel) × (sys_block l k ≡ done k')
        × Queues l k'.links free (rest ++ list_of (current k) ∷ []) blk
        × ((k'.task (current k)).state ≡ st_ready)
        × ((k'.task t).state ≡ st_run)
        × Dispatched k t k'
  sys_block-requeues t rest none_pending q loose small waiting =
      let n : Ptr = list_of (current k) in
      let b = push_blocked n q loose in
      let o = pop_blocked blk n [] b.2 in
      let same = append-nil blk in
      let q1 = subst (Queues l o.0 free (list_of t ∷ rest)) same o.2 in
      let loose1 = subst (λ xs. Loose l free (list_of t ∷ rest) xs n) same o.3 in
      let p = push_ready n q1 loose1 in
      let ne : t ≢ current k = λ e. ground (arith, loose.not_ready) in
      let r =
        sched_next_rr-ready {k = requeued b.0 p.0 k} t (rest ++ n ∷ []) p.2 small
          (requeued-waiting k b.0 p.0 t ne waiting) in
      let d = requeued-state k b.0 p.0 t r.0 ne r.5 r.6 in
      (
        r.0,
        sys_block-requeued l k (list_of t) rest b.0 o.0 p.0 none_pending b.1 b.2 o.1 p.1 ∙ r.1,
        r.2,
        d.0,
        r.4,
        d.1,
      )
