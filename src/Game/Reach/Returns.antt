-- ===== src/Game/Reach/Returns.antt =====
-- so2_old/GAME/zeos: in no state that the kernel reaches does it fault.
use fib_so.Prelude.{ℕ, ◌+◌, ◌≤◌, ◌<◌, ◌≡◌, ◌≢◌}
use fib_so.Prelude.Int.{ℤ}
use fib_so.Phase2.Kernel.{done}
use fib_so.Game.Kernel.{Layout, Kernel, current}
use fib_so.Game.Sched.{schedule}
use fib_so.Game.Process.{sys_fork, sys_exit}
use fib_so.Game.Reach.{owner, Reach}
use fib_so.Game.Reach.Rotate.{schedule-IsSound}
use fib_so.Game.Reach.Exit.{sys_exit-IsSound}
use fib_so.Game.Reach.Fork.{sys_fork-IsSound}
use fib_so.Game.Boot.{start}
use fib_so.Game.Boot.Queued.{Placed}
use fib_so.Game.Reach.Start.{start-IsSound}
use fib_so.Game.Reach.Places.{Reach-keeps}

-- With the task array aligned and the heads of the queues mapped, distinct and outside it: in every state that the kernel reaches from its start, a clock tick, sys_fork and sys_exit return:
-- none of them reads or writes through NULL. They are called by a process other than the idle one,
-- and the frame pointer `ebp` of sys_fork is in the stack of the caller.
pub start-Reach-returns :
    (l : Layout) (k k1 k2 : Kernel) (e ebp : ℕ)
    → Placed l
    → start l k ≡ done k1
    → owner e ≡ l.task + 4096
    → Reach l (record k1 { esp = e }) k2
    → current k2 ≢ k2.idle_task
    → current k2 + 8 ≤ ebp
    → ebp < current k2 + 4096
    → ((k' : Kernel) × (schedule l k2 ≡ done k'))
      × ((r : ℤ) × (k' : Kernel) × (sys_fork l ebp k2 ≡ done (r, k')))
      × ((k' : Kernel) × (sys_exit l k2 ≡ done k'))
start-Reach-returns l k k1 k2 e ebp placed run entered r user low high =
    let s0 = start-IsSound l k k1 e placed run entered in
    let s = Reach-keeps l (record k1 { esp = e }) k2 placed s0 r in
    let a = schedule-IsSound l k2 placed s.1 s.2 in
    let b = sys_fork-IsSound l ebp k2 placed low high s.0 s.2 in
    let c = sys_exit-IsSound l k2 placed user s.1 s.2 in ((a.0, a.1), (b.0, b.1, b.2), (c.0, c.1))
