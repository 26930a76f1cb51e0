-- ===== src/Phase2/Block.antt =====
-- so2_old/E1_E2/zeos/sys.c: sys_block.
pub mod Requeue
use fib_so.Prelude.{ℕ, ◌-◌, ◌==◌, if◌then◌else◌}
use fib_so.ListHead.{Ptr, list_add_tail}
use fib_so.Phase2.Kernel.{
  Run, done, ◌>>=◌, lift, st_blocked, Layout, Kernel, list_of, current, set_links, on_links,
  set_task, set_state,
}
use fib_so.Phase2.Sched.{schedule}

module _ (l : Layout) where
  pub sys_block : Kernel → Run Kernel
  sys_block k =
      let current_pcb : Ptr = current k in
      let pending_unblocks : ℕ = (k.task current_pcb).pending_unblocks in
      if pending_unblocks == 0
      then (do
        k ←
            on_links (list_add_tail (list_of current_pcb) l.blocked)
              (set_state current_pcb st_blocked k)
        schedule l k)
      else done (
          set_task current_pcb
            (record (k.task current_pcb) { pending_unblocks = pending_unblocks - 1 }) k)
