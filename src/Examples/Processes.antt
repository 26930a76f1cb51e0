-- ===== src/Examples/Processes.antt =====
-- Processes of the game kernel.
use fib_so.Prelude.{
  ℕ, zero, suc, ◌+◌, ◌*◌, ◌/◌, ◌^◌, ◌%◌, ◌≡◌, ◌≢◌, refl, some, List, [], ◌∷◌, arith,
}
use fib_so.Prelude.Int.{pos, negsuc}
use fib_so.ListHead.{Links}
use fib_so.Paging.Table.{get_frame}
use fib_so.Paging.Frames.{PhysMem, alloc_frame, alloc_from}
use fib_so.Phase2.Kernel.{done, st_run}
use fib_so.Phase2.Space.{alloc_data_frames, alloc_frames, alloc_round, free_frames}
use fib_so.Phase2.Space.Release.{frames_of}
use fib_so.Game.Kernel.{Kernel, current}
use fib_so.Game.Sched.Rotate.{Accounts}
use fib_so.Game.Space.{map_data_pages}
use fib_so.Game.Space.Alloc.{Agrees, Lost, map_data_pages-Agrees}
use fib_so.Game.Space.Child.{Owns}
use fib_so.Game.Process.{eagain, sys_fork, sys_exit}
use fib_so.Game.Process.Fork.{Queues}
use fib_so.Game.Process.Child.{Forked, sys_fork-copies}
use fib_so.Game.Process.Refused.{sys_fork-out_of_frames}
use fib_so.Game.Process.Exit.{sys_exit-Dispatched}
use fib_so.Examples.Data.{table}
use fib_so.Examples.ProcessData.{layout, kernel, fork_links-Queues, some_free, none_free, forking}

abbrev evens : ℕ → ℕ → List ℕ
evens zero f = []
evens (suc n) f = f ∷ evens n (f + 2)

abbrev taken : PhysMem
taken = (alloc_data_frames some_free).1

forking-Owns : Owns 1 (forking some_free).space
unfolding get_frame
forking-Owns = record {
  used = λ j h.
      let f : (4096 * (264 + j) + 7) / 4096 % 2 ^ 20 ≡ 264 + j = omega arith in
      rw f (λ e. ground arith);
}

map_data_pages-Agrees_example :
    Agrees 4
      (forking some_free).space
      (some (evens 20 310), taken)
      (map_data_pages 4 (forking some_free).space)
unfolding alloc_data_frames alloc_frames alloc_round alloc_frame alloc_from
map_data_pages-Agrees_example = map_data_pages-Agrees 4 (forking some_free).space

sys_fork-copies_example :
    (k' : Kernel) × (sys_fork layout 72000 (forking some_free) ≡ done (pos 1001, k'))
    × Forked layout 72000 (forking some_free) 81920 [] [] (evens 20 310) taken k'
unfolding current alloc_data_frames alloc_frames alloc_round alloc_frame alloc_from
sys_fork-copies_example =
    sys_fork-copies layout 72000 (forking some_free) 81920 (evens 20 310) taken fork_links-Queues
      refl (λ e. omega arith) (λ e. omega arith) forking-Owns refl

sys_fork-out_of_frames_example :
    (k' : Kernel) × (sys_fork layout 72000 (forking none_free) ≡ done (eagain, k'))
    × Queues layout k'.links (81928 ∷ []) []
    × ((f : ℕ) → f ≢ 256 → k'.space.phys f ≡ 1)
    × (k'.space.page ≡ (forking none_free).space.page)
    × ((e : ℕ) → e ≢ 4 → k'.space.tables e ≡ (forking none_free).space.tables e)
    × ((u : ℕ) → u ≢ 81920 → k'.task u ≡ (forking none_free).task u)
    × (k'.global_pid ≡ 1000)
    × (k'.esp ≡ (forking none_free).esp)
unfolding current alloc_data_frames alloc_frames alloc_round alloc_frame alloc_from free_frames
sys_fork-out_of_frames_example =
    sys_fork-out_of_frames layout 72000 (forking none_free) 81920 none_free fork_links-Queues refl
      refl

-- The structure at 73728 ready, and none free.
abbrev exit_links : Links
exit_links = record {
  next = table ((16, 16) ∷ (32, 73736) ∷ (73736, 32) ∷ []);
  prev = table ((16, 16) ∷ (32, 73736) ∷ (73736, 32) ∷ []);
}

exit_links-Queues : Queues layout exit_links [] (73736 ∷ [])
exit_links-Queues = record {
  free_ring = record {
    chain = (refl, refl);
    fresh_head = refl;
    distinct = tt;
    head_mapped = ground arith;
    mapped = refl;
  };
  ready_ring = record {
    chain = (refl, refl, (refl, refl));
    fresh_head = refl;
    distinct = (refl, tt);
    head_mapped = ground arith;
    mapped = refl;
  };
  apart = λ a i. ground arith;
}

abbrev exiting : Kernel
exiting = kernel exit_links some_free

sys_exit-Dispatched_example :
    (k' : Kernel) × (sys_exit layout exiting ≡ done k')
    × Queues layout k'.links (69640 ∷ []) []
    × Lost 20 264 1 exiting.space k'.space
    × (k'.space.phys ≡ free_frames (frames_of (exiting.space.tables 1) 264 20) exiting.space.phys)
    × ((k'.task 69632).pid ≡ negsuc 0)
    × ((k'.task 73728).state ≡ st_run)
    × (k'.esp ≡ 65536 + 4096 * 2 + 4000)
    × (k'.cr3 ≡ 2)
    × (k'.remaining_quantum ≡ pos 10)
    × Accounts (λ u. 100) k'
unfolding current
sys_exit-Dispatched_example =
    sys_exit-Dispatched layout (λ u. 100) exiting 73728 [] exit_links-Queues refl refl refl
      (λ n. omega arith) (λ u. (ground arith, ground arith))
