-- ===== src/Phase2/Sched.antt =====
-- so2_old/E1_E2/zeos/sched.c: the round robin scheduler and the task switch.
pub mod Next
use fib_so.Prelude.{ℕ, ◌+◌, ◌==◌, not, Bool, true, false, if◌then◌else◌, update}
use fib_so.Prelude.Int.{ℤ, is_le_zero, pred_ℤ}
use fib_so.ListHead.{Ptr, null, list_add_tail, list_del, list_empty, list_first}
use fib_so.Phase2.Kernel.{
  Run, done, ◌>>=◌, lift, st_run, st_ready, st_blocked, Layout, Kernel, list_of,
  list_head_to_task_struct, current, on_links, set_task, set_state, is_run, is_blocked,
}

unfoldable pub get_quantum : Ptr → Kernel → ℤ
get_quantum t k = (k.task t).quantum

unfoldable pub set_quantum : Ptr → ℤ → Kernel → Kernel
set_quantum t new_quantum k = set_task t (record (k.task t) { quantum = new_quantum }) k

unfoldable pub update_sched_data_rr : Kernel → Kernel
update_sched_data_rr k = record k { queue_ticks = pred_ℤ k.queue_ticks }

-- `switch_stack` of kernel_utils.S with it: the stack pointer is saved in the running task's
-- structure, and that of the new task is loaded.
unfoldable pub inner_task_switch : Ptr → Kernel → Kernel
inner_task_switch new k =
    let old : Ptr = current k in
    record k {
      tss_esp0 = new + 4096;
      cr3 = (k.task new).dir;
      msr_esp = new + 4096;
      task = update k.task old (record (k.task old) { kernel_esp = k.esp });
      esp = (k.task new).kernel_esp;
    }

module _ (l : Layout) where
  -- Whether a switch is needed; an expired quantum is renewed.
  unfoldable pub needs_sched_rr : Kernel → Run (Bool × Kernel)
  needs_sched_rr k =
      let renewed : Kernel = record k { queue_ticks = get_quantum (current k) k } in
      if is_le_zero k.queue_ticks
      then (do empty ← lift (list_empty l.readyqueue renewed.links); done (not empty, renewed))
      else done (is_blocked (k.task (current k)).state, k)

  -- Out of the queue that the process is in, unless it is running.
  unfoldable pub leave_queue : Ptr → Kernel → Run Kernel
  leave_queue t k = if is_run (k.task t).state then done k else on_links (list_del (list_of t)) k

  -- The destination queue, NULL for the processor.
  unfoldable pub update_process_state_rr : Ptr → Ptr → Kernel → Run Kernel
  update_process_state_rr t dst_queue k = do
    k ← leave_queue t k
    if dst_queue == null then done (set_state t st_run k) else do
      k ← on_links (list_add_tail (list_of t) dst_queue) k
      done (set_state t (if dst_queue == l.readyqueue then st_ready else st_blocked) k)

  -- The process to run next, taken off the ready queue; the idle process if that is empty.
  unfoldable pub select_next : Kernel → Run (Ptr × Kernel)
  select_next k = do
    empty ← lift (list_empty l.readyqueue k.links)
    if empty then done (k.idle_task, k) else do
      next ← lift (list_first l.readyqueue k.links)
      k ← update_process_state_rr (list_head_to_task_struct next) null k
      done (list_head_to_task_struct next, k)

  unfoldable pub sched_next_rr : Kernel → Run Kernel
  sched_next_rr k = do
    (next_task, k) ← select_next k
    done (inner_task_switch next_task (record k { queue_ticks = (k.task next_task).quantum }))

  unfoldable pub schedule : Kernel → Run Kernel
  schedule k = do
    (needed, k) ← needs_sched_rr (update_sched_data_rr k)
    if not needed
        then done k
        else do k ← update_process_state_rr (current k) l.readyqueue k; sched_next_rr k
