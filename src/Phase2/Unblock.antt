-- ===== src/Phase2/Unblock.antt =====
-- so2_old/E1_E2/zeos/sys.c: sys_unblock.
pub mod Forever
pub mod Search
use fib_so.Prelude.{ℕ, zero, suc, ◌+◌, ◌==◌, if◌then◌else◌}
use fib_so.Prelude.Int.{ℤ, pos, neg}
use fib_so.ListHead.{Ptr, get_next, list_add_tail, list_del}
use fib_so.Phase2.Kernel.{
  Run, done, out_of_fuel, ◌>>=◌, lift, st_ready, Task, Layout, Kernel, kids_of,
  list_head_to_task_struct, current, on_links, set_task, set_state, is_blocked,
}

abbrev pub echild : ℤ
echild = neg 10

module _ (l : Layout) where
  -- What is done with the child found, whose `list` is at `pos`.
  unfoldable pub unblock_child : Ptr → Kernel → Run (ℤ × Kernel)
  unblock_child entry k =
      let unblocked_pcb : Ptr = list_head_to_task_struct entry in
      let caller : Task = k.task (current k) in
      if is_blocked (k.task unblocked_pcb).state
      then (do
        k ← on_links (list_del entry) (set_state unblocked_pcb st_ready k)
        k ← on_links (list_add_tail entry l.readyqueue) k
        done (pos 0, k))
      else done (
        pos 0,
        set_task (current k) (record caller { pending_unblocks = caller.pending_unblocks + 1 }) k,
      )

module _ (l : Layout) (pid : ℕ) where
  -- The loop over the children from `entry` on.
  pub unblock_from : ℕ → Ptr → Kernel → Run (ℤ × Kernel)
  unblock_from zero entry k = out_of_fuel
  unblock_from (suc fuel) entry k =
      let rest = (do next ← lift (get_next entry k.links); unblock_from fuel next k) in
      if entry == kids_of (current k)
      then done (echild, k)
      else if (k.task (list_head_to_task_struct entry)).pid == pid
      then unblock_child l entry k
      else rest

  pub sys_unblock : ℕ → Kernel → Run (ℤ × Kernel)
  sys_unblock fuel k = do
    first ← lift (get_next (kids_of (current k)) k.links)
    unblock_from fuel first k
