-- ===== src/Game/Process/Child.antt =====
-- so2_old/GAME/zeos/sys.c: the child that sys_fork makes, and how it ends where there is no process
-- structure or no memory.
use fib_so.Prelude.{
  ℕ, ◌+◌, ◌-◌, ◌/◌, ◌%◌, ◌≡◌, ◌≢◌, ◌∙◌, ap, refl, true, some, List, [], ◌∷◌, ◌++◌, arith, update,
}
use fib_so.Prelude.Int.{pos}
use fib_so.ListHead.{Ptr, Links, list_add_tail}
use fib_so.Paging.Frames.{PhysMem}
use fib_so.Phase2.Kernel.{done, st_ready, list_of, Space}
use fib_so.Phase2.Space.{alloc_data_frames}
use fib_so.Game.Kernel.{Task, Layout, Kernel, current, init_stats}
use fib_so.Game.Space.{map_data_pages, copy_space}
use fib_so.Game.Space.Child.{Owns, Built, copy_space-map_data_pages}
use fib_so.Game.Process.Fork.{Queues, Taken, take_free, push_ready, prepared, sys_fork-prepared}
use fib_so.Game.Process.{copy_links, finish_space, finish_child, fork_with, sys_fork}

-- The child's structure, as it differs from the parent's; the two readings of the clock are the next.
abbrev pub child_task : Layout → ℕ → Ptr → Kernel → Task
child_task l ebp n k = record (k.task (current k)) {
  pid = pos (k.global_pid + 1);
  dir = (n - l.task) / 4096;
  register_esp = ebp - current k + n - 4;
  state = st_ready;
  p_stats = record {
    user_ticks = 0;
    system_ticks = 0;
    blocked_ticks = 0;
    ready_ticks = 0;
    elapsed_total_ticks = k.clock k.reads;
    total_trans = 0;
    remaining_ticks = k.clock (k.reads + 1);
  };
}

-- Its stack: the parent's, with ret_from_fork in between.
abbrev pub child_stack : Layout → ℕ → Kernel → ℕ → ℕ
child_stack l ebp k =
    let at : ℕ = (ebp - current k) / 4 in
    update (update (k.stack (current k)) at l.ret_from_fork) (at - 1) (k.stack (current k) at)

-- What a fork makes of the kernel: `n` is the child's structure, `fs` the frames that it gets, and
-- `m` the byte map without them.
pub record Forked (l : Layout) (ebp : ℕ) (k : Kernel) (n : Ptr) (rest ready fs : List ℕ)
    (m : PhysMem) (k' : Kernel) : Type 0 where
  pub queues : Queues l k'.links rest (ready ++ list_of n ∷ [])
  pub child : k'.task n ≡ child_task l ebp n k
  pub others : (u : Ptr) → u ≢ n → k'.task u ≡ k.task u
  pub stack : k'.stack n ≡ child_stack l ebp k
  pub space : Built fs m (k.task (current k)).dir ((n - l.task) / 4096) k.space k'.space
  pub counter : k'.global_pid ≡ k.global_pid + 1
  pub stack_pointer : k'.esp ≡ k.esp
  pub directory : k'.cr3 ≡ (k.task (current k)).dir

abbrev pub made : Layout → ℕ → Ptr → Links → Space → Kernel → Kernel
made l ebp n g sp k = finish_child l ebp n (finish_space n sp (prepared l n g k))

module _ (l : Layout) (ebp : ℕ) (k : Kernel) (n : Ptr) (g : Links) (sp : Space)
    (other : current k ≢ n) where
  pub made-child : (made l ebp n g sp k).task n ≡ child_task l ebp n k
  unfolding finish_child finish_space init_stats current
  made-child = ground arith

  pub made-others : (u : Ptr) → u ≢ n → (made l ebp n g sp k).task u ≡ k.task u
  unfolding finish_child finish_space init_stats current
  made-others u ne = ground arith

  made-stack : (made l ebp n g sp k).stack n ≡ child_stack l ebp k
  unfolding finish_child finish_space init_stats current
  made-stack = ground arith

  made-space :
      (made l ebp n g sp k).space ≡ copy_space (k.task (current k)).dir ((n - l.task) / 4096) sp
  unfolding finish_child finish_space init_stats current
  made-space = ground arith

  pub made-rest :
      ((made l ebp n g sp k).links ≡ copy_links (current k) n g)
      × ((made l ebp n g sp k).global_pid ≡ k.global_pid + 1)
      × ((made l ebp n g sp k).esp ≡ k.esp)
      × ((made l ebp n g sp k).cr3 ≡ (k.task (current k)).dir)
      × ((made l ebp n g sp k).idle_task ≡ k.idle_task)
  unfolding finish_child finish_space init_stats current
  made-rest = (refl, refl, refl, ground arith, refl)

  pub fork_with-made :
      (h : Links)
      → list_add_tail (list_of n) l.readyqueue (made l ebp n g sp k).links ≡ some h
      → fork_with l ebp n (true, sp) (prepared l n g k)
        ≡ done (pos (k.global_pid + 1), record (made l ebp n g sp k) { links = h })
  unfolding fork_with
  fork_with-made h add =
      rw add
        (ap (λ (t : Task). done (t.pid, record (made l ebp n g sp k) { links = h })) made-child)

module _ (l : Layout) (ebp : ℕ) (k : Kernel) {rest ready : List Ptr} where
  -- Let the queues be well formed, with the page-aligned structure of another process than the
  -- caller first in the free queue; let the caller's directory differ from the child's, let the frames
  -- of the caller's data pages be marked as used, and let there be frames enough. Then sys_fork
  -- returns the child's number, the successor of the last one given out. The child's structure is the
  -- parent's but for number, directory, state, saved stack pointer and statistics, which start at
  -- zero; its stack makes it start in ret_from_fork. Its pages below 264, page 0 and the guard pages
  -- among them, are mapped onto the frames that the parent's table names for them, and its 20 data
  -- pages onto new frames with the bytes of the parent's; all of these are present, user and writable,
  -- whatever they are in the parent. The parent's pages 284 to 303 are cleared, no other table and no
  -- other frame changes, and only the new frames are marked. The child leaves the front of the free
  -- queue for the end of the ready queue; the other processes and the running one are as before.
  pub sys_fork-copies :
      (n : Ptr) (fs : List ℕ) (m : PhysMem)
      → Queues l k.links (list_of n ∷ rest) ready
      → n % 4096 ≡ 0
      → current k ≢ n
      → (k.task (current k)).dir ≢ (n - l.task) / 4096
      → Owns (k.task (current k)).dir k.space
      → alloc_data_frames k.space.phys ≡ (some fs, m)
      → (k' : Kernel) × (sys_fork l ebp k ≡ done (pos (k.global_pid + 1), k'))
        × Forked l ebp k n rest ready fs m k'
  sys_fork-copies n fs m q aligned other dirs own alloc =
      let child : ℕ = (n - l.task) / 4096 in
      let o = take_free l (current k) n rest ready k.links q in
      let t : Taken l (current k) n rest ready k.links o.0 = o.1 in
      let b =
        copy_space-map_data_pages (k.task (current k)).dir child k.space fs m dirs own alloc in
      let sp : Space = (map_data_pages child k.space).1 in
      let p = push_ready (list_of n) t.queues (omega arith) t.not_free t.not_ready in
      let x : Kernel = made l ebp n o.0 sp k in
      let add : list_add_tail (list_of n) l.readyqueue x.links ≡ some p.0 =
        ap (list_add_tail (list_of n) l.readyqueue) (made-rest l ebp k n o.0 sp other).0 ∙ p.1 in
      let got : map_data_pages child k.space ≡ (true, sp) = λ i. (b.0 i, sp) in
      (
        record x { links = p.0 },
        sys_fork-prepared l ebp k n rest o.0 q.free_ring aligned t.del
            ∙ ap (λ r. fork_with l ebp n r (prepared l n o.0 k)) got
            ∙ fork_with-made l ebp k n o.0 sp other p.0 add,
        record {
          queues = p.2;
          child = made-child l ebp k n o.0 sp other;
          others = made-others l ebp k n o.0 sp other;
          stack = made-stack l ebp k n o.0 sp other;
          space = rw (made-space l ebp k n o.0 sp other) b.1;
          counter = (made-rest l ebp k n o.0 sp other).1;
          stack_pointer = (made-rest l ebp k n o.0 sp other).2;
          directory = (made-rest l ebp k n o.0 sp other).3;
        },
      )
