-- ===== src/Game/Reach/Places.antt =====
-- so2_old/GAME/zeos: every state that the kernel reaches has each process structure in its place.
use fib_so.Prelude.{ℕ, ◌+◌, ◌≡◌, ◌∙◌, sym, subst, refl, arith, [], ◌∷◌}
use fib_so.ListHead.Ring.Walk.{list_empty-is_nil}
use fib_so.Phase2.Kernel.{Run, done, done-injective}
use fib_so.Game.Kernel.{Layout, Kernel, current}
use fib_so.Game.Sched.{schedule, force_task_switch}
use fib_so.Game.Process.{sys_exit}
use fib_so.Game.Process.Fork.{Queues}
use fib_so.Game.Reach.{
  owner, Parts, IsSound, Step, move, tick, yield, fork, exit, Reach, stay, and_then,
}
use fib_so.Game.Reach.Rotate.{Sound-IsSound, same-Sound, force-IsSound, schedule-IsSound}
use fib_so.Game.Reach.Exit.{sys_exit-IsSound}
use fib_so.Game.Reach.Fork.{sys_fork-IsSound}
use fib_so.Game.Boot.{start}
use fib_so.Game.Boot.Queued.{Placed}
use fib_so.Game.Reach.Start.{start-IsSound}

-- A state that a computation returns, from one that it is known to return.
returned :
    (l : Layout) (r : Run Kernel) (k' : Kernel)
    → (k1 : Kernel) × (r ≡ done k1) × IsSound l k1
    → r ≡ done k'
    → IsSound l k'
returned l r k' o run = subst (IsSound l) (done-injective o.0 k' (sym o.1 ∙ run)) o.2

Step-IsSound : (l : Layout) (k k' : Kernel) → Placed l → Step l k k' → IsSound l k → IsSound l k'
unfolding current
Step-IsSound l k k' placed (move e same eq) (free, ready, s) =
    subst (IsSound l) (sym eq)
      (Sound-IsSound (same-Sound l k placed s (record k { esp = e }) refl refl refl same))
Step-IsSound l k k' placed (tick run) (free, ready, s) =
    returned l (schedule l k) k' (schedule-IsSound l k placed ready s) run
Step-IsSound l k k' placed (yield some_ready run) (free, [], s) =
    let p : Parts l k (current k) free [] = s.parts in
    let q : Queues l k.links free [] = p.queues in
    absurd (ground (arith, list_empty-is_nil [] q.ready_ring))
Step-IsSound l k k' placed (yield some_ready run) (free, a ∷ rest, s) =
    returned l (force_task_switch l k) k' (force-IsSound l k placed a rest s) run
Step-IsSound l k k' placed (fork ebp r user low high run) (free, ready, s) =
    let o = sys_fork-IsSound l ebp k placed low high free s in
    let same = done-injective (o.0, o.1) (r, k') (sym o.2 ∙ run) in
    subst (IsSound l) (λ i. (same i).1) o.3
Step-IsSound l k k' placed (exit user run) (free, ready, s) =
    returned l (sys_exit l k) k' (sys_exit-IsSound l k placed user ready s) run

pub Reach-keeps :
    (l : Layout) (k k' : Kernel) → Placed l → IsSound l k → Reach l k k' → IsSound l k'
Reach-keeps l k k' placed s stay = s
Reach-keeps l k k' placed s (and_then r st) =
    Step-IsSound l _ k' placed st (Reach-keeps l k _ placed s r)

-- With the task array aligned and the heads of the queues mapped, distinct and outside it: from the
-- start of the kernel on, once process 1 has entered it for the first time, whatever clock
-- ticks, calls of sys_fork and sys_exit and switches between ready processes follow: each of the ten
-- process structures is in the free queue, in the ready queue, running, or idle; no structure is in
-- two queues or twice in one; the running one is in none and has the state ST_RUN, those in the
-- ready queue have ST_READY, and the saved stack pointer of each of these, and of the idle process
-- while it does not run, points into that process's own stack.
pub start-Reach-IsSound :
    (l : Layout) (k k1 k2 : Kernel) (e : ℕ)
    → Placed l
    → start l k ≡ done k1
    → owner e ≡ l.task + 4096
    → Reach l (record k1 { esp = e }) k2
    → IsSound l k2
start-Reach-IsSound l k k1 k2 e placed run entered r =
    Reach-keeps l (record k1 { esp = e }) k2 placed (start-IsSound l k k1 e placed run entered) r
