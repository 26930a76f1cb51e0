-- ===== src/Examples/Data.antt =====
-- A kernel of E1_E2 with three processes: the first runs, the two others are ready, with no children;
-- a list of two entries.
use fib_so.Prelude.{ℕ, ◌+◌, ◌*◌, refl, ◌==◌, if◌then◌else◌, List, [], ◌∷◌, arith}
use fib_so.Prelude.Int.{ℤ, pos}
use fib_so.ListHead.{Links}
use fib_so.ListHead.Ring.{IsRing}
use fib_so.Console.{Screen}
use fib_so.Phase2.Kernel.{st_run, st_ready, TaskState, Task, Space, Layout, Kernel}
use fib_so.Phase2.Kernel.Queues.{Queues, Loose}

-- A function given by some of its values, 0 elsewhere.
abbrev pub table : List (ℕ × ℕ) → ℕ → ℕ
table [] a = 0
table ((k, v) ∷ rest) a = if a == k then v else table rest a

-- 200 and 300 in the list at 100.
abbrev pub two : Links
two = record {
  next = table ((100, 200) ∷ (200, 300) ∷ (300, 100) ∷ []);
  prev = table ((100, 300) ∷ (200, 100) ∷ (300, 200) ∷ []);
}

pub two-IsRing : IsRing two 100 (200 ∷ 300 ∷ [])
two-IsRing = record {
  chain = (refl, refl, (refl, refl, (refl, refl)));
  fresh_head = refl;
  distinct = (refl, (refl, tt));
  head_mapped = ground arith;
  mapped = refl;
}

abbrev pub layout : Layout
layout = record {
  task = 65536;
  freequeue = 16;
  readyqueue = 32;
  blocked = 48;
  ret_from_fork = 1234;
  cpu_idle = 5678;
}

abbrev pub blank : Screen
blank = record { x = 0; y = 0; cells = table []; port = [] }

-- 73736 and 77832 in the ready queue, the two others empty.
abbrev pub queue_links : Links
queue_links = record {
  next =
      table
        ((16, 16) ∷ (32, 73736) ∷ (73736, 77832) ∷ (77832, 32) ∷ (48, 48) ∷ (69648, 69648) ∷ []);
  prev =
      table
        ((16, 16) ∷ (32, 77832) ∷ (73736, 32) ∷ (77832, 73736) ∷ (48, 48) ∷ (69648, 69648) ∷ []);
}

abbrev pub task_at : ℕ → TaskState → ℕ → Task
task_at n s pending = record {
  pid = n;
  dir = n;
  parent = 65536;
  state = s;
  quantum = pos 100;
  pending_unblocks = pending;
  kernel_esp = 65536 + 4096 * n + 4000;
}

abbrev pub space : Space
space = record {
  phys = λ f. if f == 300 then 0 else 1;
  tables = λ d p. (4096 * p + 7);
  page = λ f i. f;
}

-- With the ticks left, the links, and the state and the pending unblocks of the running process.
abbrev pub kernel : ℤ → Links → TaskState → ℕ → Kernel
kernel ticks links s pending = record {
  links = links;
  task = λ a.
      if a == 69632
      then task_at 1 s pending
      else if a == 73728
      then task_at 2 st_ready 0
      else task_at 3 st_ready 0;
  stack = λ a i. 0;
  esp = 69632 + 3000;
  queue_ticks = ticks;
  pid_counter = 4;
  idle_task = 65536;
  task1 = 69632;
  space = space;
  cr3 = 1;
  tss_esp0 = 0;
  msr_esp = 0;
  screen = blank;
}

abbrev pub running : ℤ → ℕ → Kernel
running ticks pending = kernel ticks queue_links st_run pending

pub queue_links-Queues : Queues layout queue_links [] (73736 ∷ 77832 ∷ []) []
queue_links-Queues = record {
  free_ring = record {
    chain = (refl, refl);
    fresh_head = refl;
    distinct = tt;
    head_mapped = ground arith;
    mapped = refl;
  };
  ready_ring = record {
    chain = (refl, refl, (refl, refl, (refl, refl)));
    fresh_head = refl;
    distinct = (refl, (refl, tt));
    head_mapped = ground arith;
    mapped = refl;
  };
  blocked_ring = record {
    chain = (refl, refl);
    fresh_head = refl;
    distinct = tt;
    head_mapped = ground arith;
    mapped = refl;
  };
  free_ready = λ a i. ground arith;
  free_blocked = λ a i. ground arith;
  ready_blocked = λ a i. ground arith;
}

pub caller-Loose : Loose layout [] (73736 ∷ 77832 ∷ []) [] 69640
caller-Loose = record {
  ne_null = ground arith;
  not_free = refl;
  not_ready = refl;
  not_blocked = refl;
}
