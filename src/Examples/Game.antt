-- ===== src/Examples/Game.antt =====
-- The kernel of the game at concrete states.
use fib_so.Prelude.{ℕ, ◌+◌, ◌*◌, ◌^◌, ◌%◌, ◌≡◌, refl, ◌==◌, if◌then◌else◌, some, [], ◌∷◌, arith}
use fib_so.Prelude.Int.{pos}
use fib_so.ListHead.{Links}
use fib_so.ListHead.Ring.{IsRing}
use fib_so.Memory.{Mem}
use fib_so.Phase2.Kernel.{done, st_run, st_ready, TaskState}
use fib_so.Game.Kernel.{Stats, Task, Layout, Kernel, current}
use fib_so.Game.Keyboard.{Buffer, event_of}
use fib_so.Game.Keyboard.Fifo.{IsBuffer, queue}
use fib_so.Game.Keyboard.Deliver.{key_event, clock_tick, deliver, deliver-specified}
use fib_so.Game.Sched.{force_task_switch}
use fib_so.Game.Sched.Rotate.{Accounts, force_task_switch-Dispatched}
use fib_so.Game.Calls.{access_ok, sys_get_stats}
use fib_so.Game.Calls.Search.{sys_get_stats-first}
use fib_so.Examples.Data.{table, space}

-- One event, at the last position.
abbrev buffer : Buffer
buffer = record { events = λ i. record { pressed = 1; scancode = i }; head = 0; tail = 15 }

-- The key with the code 30 is pressed and let go, and the clock ticks in between and afterwards.
deliver-specified_example :
    let after = deliver (key_event 30 ∷ clock_tick ∷ key_event 158 ∷ clock_tick ∷ []) buffer in
    (after.0 ≡ record { pressed = 1; scancode = 15 } ∷ record { pressed = 1; scancode = 30 } ∷ [])
    × (queue after.1 ≡ record { pressed = 0; scancode = 30 } ∷ [])
    × IsBuffer after.1
unfolding event_of
deliver-specified_example =
    deliver-specified (key_event 30 ∷ clock_tick ∷ key_event 158 ∷ clock_tick ∷ []) buffer
      (omega arith, omega arith)

abbrev layout : Layout
layout = record {
  task = 65536;
  freequeue = 16;
  readyqueue = 32;
  ret_from_fork = 500;
  cpu_idle = 600;
  pagusr_table = 131072;
}

abbrev links : Links
links = record {
  next = table ((32, 73736) ∷ (73736, 77832) ∷ (77832, 32) ∷ []);
  prev = table ((32, 77832) ∷ (73736, 32) ∷ (77832, 73736) ∷ []);
}

links-IsRing : IsRing links 32 (73736 ∷ 77832 ∷ [])
links-IsRing = record {
  chain = (refl, refl, (refl, refl, (refl, refl)));
  fresh_head = refl;
  distinct = (refl, (refl, tt));
  head_mapped = ground arith;
  mapped = refl;
}

abbrev stats : Stats
stats = record {
  user_ticks = 10;
  system_ticks = 20;
  blocked_ticks = 0;
  ready_ticks = 30;
  elapsed_total_ticks = 160;
  total_trans = 2;
  remaining_ticks = 0;
}

abbrev task_at : ℕ → TaskState → Task
task_at n s = record {
  pid = pos n;
  dir = n;
  register_esp = 65536 + 4096 * n + 4000;
  state = s;
  total_quantum = pos 10;
  p_stats = stats;
}

abbrev kernel : Kernel
kernel = record {
  links = links;
  task = λ a.
      if a == 69632
      then task_at 1 st_run
      else if a == 73728
      then task_at 2 st_ready
      else task_at 3 st_ready;
  stack = λ t i. t + i;
  global_pid = 1000;
  esp = 69632 + 3000;
  remaining_quantum = pos 7;
  idle_task = 65536;
  space = space;
  cr3 = 1;
  tss_esp0 = 0;
  msr_esp = 0;
  dir_pages = λ d. 0;
  clock = λ n. (200 + n) % 2 ^ 32;
  reads = 0;
}

force_task_switch-Dispatched_example :
    (k' : Kernel) × (force_task_switch layout kernel ≡ done k')
    × IsRing k'.links 32 (77832 ∷ 69640 ∷ [])
    × ((k'.task 69632).state ≡ st_ready)
    × ((k'.task 73728).state ≡ st_run)
    × (k'.esp ≡ 65536 + 4096 * 2 + 4000)
    × (k'.cr3 ≡ 2)
    × (k'.remaining_quantum ≡ pos 10)
    × (((k'.task 73728).p_stats).total_trans ≡ 3)
    × Accounts (λ u. 100) k'
unfolding current
force_task_switch-Dispatched_example =
    force_task_switch-Dispatched layout (λ u. 100) kernel 73728 (77832 ∷ []) links-IsRing refl refl
      refl (λ n. omega arith) (λ u. (ground arith, ground arith))

abbrev mem : Mem
mem a = a

sys_get_stats-first_example :
    ((sys_get_stats layout (pos 2) 0x108000 kernel).0 ≡ pos 0)
    × ((sys_get_stats layout (pos 2) 0x108000 kernel).1
        ≡ some (record stats { remaining_ticks = 7 }))
    × ((sys_get_stats layout (pos 2) 0x108000 kernel).2.links ≡ links)
unfolding access_ok
sys_get_stats-first_example =
    sys_get_stats-first layout 0x108000 kernel 2 (omega arith) (λ m h. ground arith) refl refl
