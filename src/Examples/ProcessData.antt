-- ===== src/Examples/ProcessData.antt =====
-- A game kernel with a parent at 69632, with the frames 264 to 283 as its data.
use fib_so.Prelude.{ℕ, ◌+◌, ◌*◌, ◌^◌, ◌%◌, refl, ◌==◌, leb, if◌then◌else◌, [], ◌∷◌, arith}
use fib_so.Prelude.Int.{pos}
use fib_so.ListHead.{Links}
use fib_so.Paging.Frames.{PhysMem}
use fib_so.Phase2.Kernel.{st_run, st_ready, TaskState}
use fib_so.Game.Kernel.{Stats, Task, Layout, Kernel}
use fib_so.Game.Process.Fork.{Queues}
use fib_so.Examples.Data.{table}

abbrev pub layout : Layout
layout = record {
  task = 65536;
  freequeue = 16;
  readyqueue = 32;
  ret_from_fork = 500;
  cpu_idle = 600;
  pagusr_table = 131072;
}

abbrev pub stats : Stats
stats = record {
  user_ticks = 10;
  system_ticks = 20;
  blocked_ticks = 0;
  ready_ticks = 30;
  elapsed_total_ticks = 160;
  total_trans = 2;
  remaining_ticks = 0;
}

abbrev pub task_at : ℕ → TaskState → Task
task_at n s = record {
  pid = pos n;
  dir = n;
  register_esp = 65536 + 4096 * n + 4000;
  state = s;
  total_quantum = pos 10;
  p_stats = stats;
}

-- With the links, and a byte map.
abbrev pub kernel : Links → PhysMem → Kernel
kernel links phys = record {
  links = links;
  task = λ a.
      if a == 69632
      then task_at 1 st_run
      else if a == 73728
      then task_at 2 st_ready
      else task_at 3 st_ready;
  stack = λ t i. t + i;
  global_pid = 1000;
  esp = 69632 + 3000;
  remaining_quantum = pos 7;
  idle_task = 65536;
  space = record { phys = phys; tables = λ d p. 4096 * p + 7; page = λ f i. f };
  cr3 = 1;
  tss_esp0 = 0;
  msr_esp = 0;
  dir_pages = λ d. 0;
  clock = λ n. (200 + n) % 2 ^ 32;
  reads = 0;
}

-- The structure at 81920 free, and none ready.
abbrev pub fork_links : Links
fork_links = record {
  next = table ((16, 81928) ∷ (81928, 16) ∷ (32, 32) ∷ []);
  prev = table ((16, 81928) ∷ (81928, 16) ∷ (32, 32) ∷ []);
}

pub fork_links-Queues : Queues layout fork_links (81928 ∷ []) []
fork_links-Queues = record {
  free_ring = record {
    chain = (refl, refl, (refl, refl));
    fresh_head = refl;
    distinct = (refl, tt);
    head_mapped = ground arith;
    mapped = refl;
  };
  ready_ring = record {
    chain = (refl, refl);
    fresh_head = refl;
    distinct = tt;
    head_mapped = ground arith;
    mapped = refl;
  };
  apart = λ a i. ground arith;
}

-- The frames from 310 on are free.
abbrev pub some_free : PhysMem
some_free f = if leb 310 f then 0 else 1

abbrev pub forking : PhysMem → Kernel
forking phys = kernel fork_links phys

abbrev pub none_free : PhysMem
none_free f = 1
