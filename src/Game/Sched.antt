-- ===== src/Game/Sched.antt =====
-- so2_old/GAME/zeos/sched.c: the scheduler, which keeps statistics.
pub mod Alone
pub mod Rotate
pub mod Switch
use fib_so.Prelude.{ℕ, ◌+◌, ◌-◌, ◌%◌, ◌^◌, ◌==◌, not, Bool, true, false, if◌then◌else◌}
use fib_so.Prelude.Int.{ℤ, pos, negsuc, pred_ℤ}
use fib_so.ListHead.{Ptr, null, list_add_tail, list_del, list_empty, list_first}
use fib_so.Phase2.Kernel.{Run, done, ◌>>=◌, lift, st_run, st_ready, st_blocked, list_of, is_run}
use fib_so.Game.Kernel.{
  Stats, Task, Layout, Kernel, on_links, set_task, list_head_to_task_struct, current, update_system,
  update_ready,
}

abbrev pub is_zero : ℤ → Bool
is_zero (pos n) = n == 0
is_zero (negsuc n) = false

unfoldable pub get_quantum : Ptr → Kernel → ℤ
get_quantum t k = (k.task t).total_quantum

unfoldable pub update_sched_data_rr : Kernel → Kernel
update_sched_data_rr k = record k { remaining_quantum = pred_ℤ k.remaining_quantum }

-- task_switch of libzeos saves registers on the stack round it.
unfoldable pub inner_task_switch : Ptr → Kernel → Kernel
inner_task_switch new k =
    let old : Ptr = current k in
    let saved : Kernel = set_task old (record (k.task old) { register_esp = k.esp }) k in
    record saved {
      tss_esp0 = new + 4096;
      msr_esp = new + 4096;
      cr3 = (k.task new).dir;
      esp = (k.task new).register_esp;
    }

-- What sched_next_rr does with the process it has selected.
pub dispatch : Ptr → Kernel → Kernel
dispatch t k =
    let k1 : Kernel = set_task t (record (k.task t) { state = st_run }) k in
    let k2 : Kernel = record k1 { remaining_quantum = get_quantum t k1 } in
    let k3 : Kernel = update_ready t (update_system (current k2) k2) in
    let s : Stats = (k3.task t).p_stats in
    let k4 : Kernel =
      set_task t
        (record (k3.task t) { p_stats = record s { total_trans = (s.total_trans + 1) % 2 ^ 32 } })
        k3 in
    inner_task_switch t k4

module _ (l : Layout) where
  pub needs_sched_rr : Kernel → Run (Bool × Kernel)
  needs_sched_rr k =
      let renewed : Kernel = record k { remaining_quantum = get_quantum (current k) k } in
      if is_zero k.remaining_quantum
      then (do
        empty ← lift (list_empty l.readyqueue k.links)
        done (if not empty then (true, k) else (false, renewed)))
      else done (false, k)

  pub leave_queue : Ptr → Kernel → Run Kernel
  leave_queue t k = if is_run (k.task t).state then done k else on_links (list_del (list_of t)) k

  -- The state of a process that has been put into a queue.
  pub enqueued : Ptr → Ptr → Kernel → Kernel
  enqueued t dst_queue k =
      let k1 : Kernel = update_system t k in
      if not (dst_queue == l.readyqueue)
      then set_task t (record (k.task t) { state = st_blocked }) k
      else set_task t (record (k1.task t) { state = st_ready }) k1

  pub update_process_state_rr : Ptr → Ptr → Kernel → Run Kernel
  update_process_state_rr t dst_queue k = do
    k ← leave_queue t k
    if dst_queue == null
        then done (set_task t (record (k.task t) { state = st_run }) k)
        else do k ← on_links (list_add_tail (list_of t) dst_queue) k; done (enqueued t dst_queue k)

  pub select_next : Kernel → Run (Ptr × Kernel)
  select_next k = do
    empty ← lift (list_empty l.readyqueue k.links)
    if empty then done (k.idle_task, k) else do
      e ← lift (list_first l.readyqueue k.links)
      k ← on_links (list_del e) k
      done (list_head_to_task_struct e, k)

  pub sched_next_rr : Kernel → Run Kernel
  sched_next_rr k = do (t, k) ← select_next k; done (dispatch t k)

  pub schedule : Kernel → Run Kernel
  schedule k = do
    (needed, k) ← needs_sched_rr (update_sched_data_rr k)
    if not needed
        then done k
        else do k ← update_process_state_rr (current k) l.readyqueue k; sched_next_rr k

  pub force_task_switch : Kernel → Run Kernel
  force_task_switch k = do k ← update_process_state_rr (current k) l.readyqueue k; sched_next_rr k
