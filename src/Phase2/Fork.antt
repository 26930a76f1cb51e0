-- ===== src/Phase2/Fork.antt =====
-- so2_old/E1_E2/zeos/sys.c: sys_fork, with allocate_DIR of sched.c.
pub mod Child
pub mod Prepare
pub mod Unblock
use fib_so.Prelude.{ℕ, ◌+◌, ◌-◌, ◌*◌, ◌/◌, if◌then◌else◌, update, Option, none, some, List}
use fib_so.Prelude.Int.{ℤ, pos, neg, is_neg}
use fib_so.ListHead
use fib_so.ListHead.{Ptr, list_add_tail, list_del, list_empty, list_first, init_list_head}
use fib_so.Paging.Frames.{PhysMem}
use fib_so.Phase2.Kernel.{
  Run, done, ◌>>=◌, lift, st_ready, Task, Space, Layout, Kernel, list_of, kids_of,
  list_head_to_task_struct, current, on_links, set_task,
}
use fib_so.Phase2.Space.{alloc_data_frames, build_child}

abbrev pub enomem : ℤ
enomem = neg 12

abbrev pub eagain : ℤ
eagain = neg 11

abbrev pub default_quantum : ℤ
default_quantum = pos 100

abbrev pub kernel_stack_size : ℕ
kernel_stack_size = 1024

-- The links of the structure at `from`, copied to the structure at `to`.
abbrev pub copy_links : Ptr → Ptr → ListHead.Links → ListHead.Links
copy_links from to h = record {
  next =
      update (update h.next (list_of to) (h.next (list_of from))) (kids_of to)
        (h.next (kids_of from));
  prev =
      update (update h.prev (list_of to) (h.prev (list_of from))) (kids_of to)
        (h.prev (kids_of from));
}

-- `copy_data(current(), child_union, PAGE_SIZE)`: structure, links and stack.
abbrev pub copy_union : Ptr → Ptr → Kernel → Kernel
copy_union from to k = record k {
  task = update k.task to (k.task from);
  links = copy_links from to k.links;
  stack = update k.stack to (k.stack from);
}

module _ (l : Layout) where
  -- The index of the process in the task array.
  unfoldable pub allocate_dir : Ptr → Kernel → Kernel
  allocate_dir t k = set_task t (record (k.task t) { dir = (t - l.task) / 4096 }) k

  -- With the outcome of the allocation.
  pub init_child_with : Ptr → Option (List ℕ) × PhysMem → Kernel → Run (ℤ × Kernel)
  init_child_with child_pcb (none, m) k = do
    k ←
        on_links (list_add_tail (list_of child_pcb) l.freequeue)
          (record k { space = record (k.space) { phys = m } })
    done (eagain, k)
  init_child_with child_pcb (some new_frames, m) k =
      let parent : ℕ = (k.task (current k)).dir in
      let sp : Space = record (k.space) { phys = m } in
      done (
        pos 0,
        record k { space = build_child new_frames parent (k.task child_pcb).dir sp; cr3 = parent },
      )

  pub init_child_address_space : Ptr → Kernel → Run (ℤ × Kernel)
  init_child_address_space child_pcb k =
      init_child_with child_pcb (alloc_data_frames k.space.phys) k

  -- The fields of the child that are not common to parent and child, and its place in the lists.
  pub finish_child : Ptr → Kernel → Run (ℤ × Kernel)
  finish_child child_pcb k =
      let parent : Ptr = current k in
      let fake_ebp : ℕ = kernel_stack_size - 19 in
      let child : Task = record (k.task child_pcb) {
        pid = k.pid_counter;
        parent = parent;
        quantum = default_quantum;
        state = st_ready;
        pending_unblocks = 0;
        kernel_esp = child_pcb + 4 * fake_ebp;
      } in
      let words : ℕ → ℕ =
        update (update (k.stack child_pcb) fake_ebp 0) (kernel_stack_size - 18) l.ret_from_fork in
      let k' : Kernel = record k {
        task = update k.task child_pcb child;
        stack = update k.stack child_pcb words;
        pid_counter = k.pid_counter + 1;
      } in
      (do
        k2 ← on_links (init_list_head (kids_of child_pcb)) k'
        k3 ← on_links (list_add_tail (list_of child_pcb) (kids_of parent)) k2
        k4 ← on_links (list_add_tail (list_of child_pcb) l.readyqueue) k3
        done (pos k.pid_counter, k4))

  pub sys_fork : Kernel → Run (ℤ × Kernel)
  sys_fork k = do
    empty ← lift (list_empty l.freequeue k.links)
    if empty then done (enomem, k) else do
      first_free ← lift (list_first l.freequeue k.links)
      k ← on_links (list_del first_free) k
      let child_pcb = list_head_to_task_struct first_free
      (res, k) ←
          init_child_address_space child_pcb
            (allocate_dir child_pcb (copy_union (current k) child_pcb k))
      if is_neg res then done (res, k) else finish_child child_pcb k
