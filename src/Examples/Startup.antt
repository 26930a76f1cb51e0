-- ===== src/Examples/Startup.antt =====
-- The start of the game kernel, with the task array at 65536.
use fib_so.Prelude.{inl, ◌+◌, ◌*◌, ◌≡◌, refl, arith, ◌≢◌, [], ◌∷◌}
use fib_so.Prelude.Int.{ℤ}
use fib_so.Phase2.Kernel.{st_run, done}
use fib_so.Game.Kernel.{Kernel}
use fib_so.Examples.ProcessData.{fork_links-Queues, layout, none_free, forking}
use fib_so.Game.Boot.{init_mm, start}
use fib_so.Game.Boot.Queued.{Placed}
use fib_so.Game.Boot.Started.{Started, start-Started}
use fib_so.Game.Boot.Tables.{init_mm-kernel_page}
use fib_so.Paging.Frames.{used_mark}
use fib_so.Examples.Data.{blank}
use fib_so.Game.Clock.{Machine, clock_routine}
use fib_so.Game.Clock.Tick.{Ticked, clock_routine-Ticked}
use fib_so.Game.Kernel.{current}
use fib_so.Game.Process.Fork.{Queues}
use fib_so.Game.Process.{sys_fork, sys_exit}
use fib_so.ListHead.Ring.{IsRing}
use fib_so.Game.Sched.{schedule, force_task_switch}
use fib_so.Game.Sched.Alone.{force_task_switch-stale}
use fib_so.Game.Reach.{IsSound, tick, stay, and_then}
use fib_so.Game.Reach.Rotate.{schedule-IsSound}
use fib_so.Game.Reach.Start.{start-IsSound}
use fib_so.Game.Reach.Places.{start-Reach-IsSound}
use fib_so.Game.Reach.Returns.{start-Reach-returns}
use fib_so.Examples.ProcessData.{fork_links-Queues, none_free}

layout-Placed : Placed layout
layout-Placed = record {
  free_mapped = λ e. omega arith;
  ready_mapped = λ e. omega arith;
  free_ready = λ e. omega arith;
  free_outside = inl (omega arith);
  ready_outside = inl (omega arith);
  aligned = refl;
}

start-Started_example :
    (k' : Kernel) × (start layout (forking none_free) ≡ done k')
    × Started layout (forking none_free) k'
start-Started_example = start-Started layout (forking none_free) layout-Placed

init_mm-kernel_page_example :
    ((init_mm layout (forking none_free)).space.tables 3 15 ≡ 15 * 4096 + 2)
    × ((init_mm layout (forking none_free)).space.phys 15 ≡ used_mark)
    × ((init_mm layout (forking none_free)).dir_pages 3 ≡ (32 + 3) * 4096 + 7)
init_mm-kernel_page_example =
    init_mm-kernel_page layout (forking none_free) 3 15 (omega arith) (omega arith)

abbrev booted : Kernel
booted = (start-Started layout (forking none_free) layout-Placed).0

booted-start : start layout (forking none_free) ≡ done booted
booted-start = (start-Started layout (forking none_free) layout-Placed).1

-- Process 1 has entered the kernel.
abbrev entered : Kernel
entered = record booted { esp = 73632 }

entered-IsSound : IsSound layout entered
entered-IsSound =
    start-IsSound layout (forking none_free) booted 73632 layout-Placed booted-start refl

entered-tick : (k' : Kernel) × (schedule layout entered ≡ done k') × IsSound layout k'
entered-tick = schedule-IsSound layout entered layout-Placed entered-IsSound.1 entered-IsSound.2

start-Reach-IsSound_example : IsSound layout entered-tick.0
start-Reach-IsSound_example =
    start-Reach-IsSound layout (forking none_free) booted entered-tick.0 73632 layout-Placed
      booted-start refl (and_then stay (tick entered-tick.1))

entered-user : current entered ≢ entered.idle_task
unfolding current
entered-user e =
    let s : Started layout (forking none_free) booted =
      (start-Started layout (forking none_free) layout-Placed).2 in
    omega (arith, s.idle)

start-Reach-returns_example :
    ((k' : Kernel) × (schedule layout entered ≡ done k'))
    × ((r : ℤ) × (k' : Kernel) × (sys_fork layout 73000 entered ≡ done (r, k')))
    × ((k' : Kernel) × (sys_exit layout entered ≡ done k'))
unfolding current
start-Reach-returns_example =
    start-Reach-returns layout (forking none_free) booted entered 73632 73000 layout-Placed
      booted-start refl stay entered-user (omega arith) (omega arith)

alone-Queues : Queues layout (forking none_free).links (81928 ∷ []) []
alone-Queues = fork_links-Queues

force_task_switch-stale_example :
    (k' : Kernel) × (force_task_switch layout (forking none_free) ≡ done k')
    × IsRing k'.links 32 []
    × ((k'.task 69632).state ≡ st_run)
    × (k'.esp ≡ 65536 + 4096 * 1 + 4000)
    × ((k'.task 69632).register_esp ≡ 69632 + 3000)
unfolding current
force_task_switch-stale_example =
    force_task_switch-stale layout (forking none_free) alone-Queues.ready_ring (λ e. omega arith)
      refl

-- The key with the code 30 has been pressed.
abbrev machine : Machine
machine = record {
  screen = blank;
  zeos_ticks = 6;
  buffer = record { events = λ i. record { pressed = 1; scancode = 30 }; head = 3; tail = 2 };
  kernel = entered;
}

clock_routine-Ticked_example :
    (m' : Machine) × (clock_routine (λ n s. s) layout machine ≡ done m')
    × Ticked layout (λ n s. s) machine m'
clock_routine-Ticked_example =
    clock_routine-Ticked (λ n s. s) layout machine layout-Placed entered-IsSound
      (omega arith, omega arith) (omega arith)
