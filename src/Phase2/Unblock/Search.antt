-- ===== src/Phase2/Unblock/Search.antt =====
-- so2_old/E1_E2/zeos/sys.c: sys_unblock of the process that the list of children leads to first.
use fib_so.Prelude.{ℕ, suc, ◌+◌, ◌≡◌, ◌≢◌, refl, true, false, arith, ◌==◌}
use fib_so.Prelude.Int.{pos}
use fib_so.ListHead.{Ptr, null, get_next}
use fib_so.Phase2.Kernel.{
  done, Task, Layout, Kernel, kids_of, list_head_to_task_struct, current, set_task, is_blocked,
}
use fib_so.Phase2.Unblock.{unblock_child, unblock_from, sys_unblock}

-- The process number of the child whose `list` is at `a`.
abbrev pub pid_at : Kernel → Ptr → ℕ
pid_at k a = (k.task (list_head_to_task_struct a)).pid

-- It is not blocked: one round, whatever the list is behind it, and a pending unblock for the caller.
pub sys_unblock-running :
    (l : Layout) (pid fuel : ℕ) (k : Kernel) (a : Ptr)
    → k.links.next (kids_of (current k)) ≡ a
    → a ≢ kids_of (current k)
    → pid_at k a ≡ pid
    → is_blocked (k.task (list_head_to_task_struct a)).state ≡ false
    → let caller : Task = k.task (current k) in
      sys_unblock l pid (suc fuel) k
      ≡ done (
        pos 0,
        set_task (current k) (record caller { pending_unblocks = caller.pending_unblocks + 1 }) k,
      )
unfolding sys_unblock unblock_from unblock_child get_next
sys_unblock-running l pid fuel k a first inside hit other =
    let mapped : (kids_of (current k) == null) ≡ false = ground arith in
    let here : (a == kids_of (current k)) ≡ false = ground arith in
    let found : (pid_at k a == pid) ≡ true = ground arith in
    rw (mapped, first, here, found, other) refl
