-- ===== src/Examples/Fork.antt =====
-- sys_fork at a kernel with one process structure free.
use fib_so.Prelude.{ℕ, zero, suc, ◌+◌, ◌≡◌, ◌≢◌, refl, List, [], ◌∷◌, arith}
use fib_so.Prelude.Int.{pos}
use fib_so.ListHead.{Links}
use fib_so.Paging.Frames.{PhysMem, alloc_frame, alloc_from}
use fib_so.Phase2.Kernel.{done, out_of_fuel, st_run, Kernel, current, list_head_to_task_struct}
use fib_so.Phase2.Kernel.Queues.{Queues, Loose}
use fib_so.Phase2.Space.{alloc_data_frames, alloc_frames, alloc_round, free_frames}
use fib_so.Phase2.Unblock.{sys_unblock}
use fib_so.Phase2.Fork.{eagain, sys_fork}
use fib_so.Phase2.Fork.Prepare.{sys_fork-no_frames}
use fib_so.Phase2.Fork.Child.{Family, Forked, sys_fork-Forked}
use fib_so.Phase2.Fork.Unblock.{sys_fork-sys_unblock}
use fib_so.Examples.Data.{table, layout, kernel}

-- 81928 in the free queue, the others and the list of children at 69648 empty.
abbrev pub fork_links : Links
fork_links = record {
  next = table ((16, 81928) ∷ (81928, 16) ∷ (32, 32) ∷ (48, 48) ∷ (69648, 69648) ∷ []);
  prev = table ((16, 81928) ∷ (81928, 16) ∷ (32, 32) ∷ (48, 48) ∷ (69648, 69648) ∷ []);
}

pub fork_links-Queues : Queues layout fork_links (81928 ∷ []) [] []
fork_links-Queues = record {
  free_ring = record {
    chain = (refl, refl, (refl, refl));
    fresh_head = refl;
    distinct = (refl, tt);
    head_mapped = ground arith;
    mapped = refl;
  };
  ready_ring = record {
    chain = (refl, refl);
    fresh_head = refl;
    distinct = tt;
    head_mapped = ground arith;
    mapped = refl;
  };
  blocked_ring = record {
    chain = (refl, refl);
    fresh_head = refl;
    distinct = tt;
    head_mapped = ground arith;
    mapped = refl;
  };
  free_ready = λ a i. ground arith;
  free_blocked = λ a i. ground arith;
  ready_blocked = λ a i. ground arith;
}

child-Loose : Loose layout (81928 ∷ []) [] [] 81936
child-Loose = record {
  ne_null = ground arith;
  not_free = refl;
  not_ready = refl;
  not_blocked = refl;
}

fork_links-Family : Family layout 69632 81920 [] [] [] [] fork_links
fork_links-Family = record {
  ring = record {
    chain = (refl, refl);
    fresh_head = refl;
    distinct = tt;
    head_mapped = ground arith;
    mapped = refl;
  };
  apart = λ a i. (ground arith, ground arith, ground arith);
  child_apart = refl;
  child_loose = child-Loose;
}

-- With all frames free, and with none.
abbrev forking : ℕ → Kernel
forking mark =
    let k : Kernel = kernel (pos 5) fork_links st_run 0 in
    record k { space = record (k.space) { phys = λ f. mark } }

abbrev evens : ℕ → ℕ → List ℕ
evens zero f = []
evens (suc n) f = f ∷ evens n (f + 2)

abbrev taken : PhysMem
taken = (alloc_data_frames (λ f. 0)).1

sys_fork-Forked_example :
    (k' : Kernel) × (sys_fork layout (forking 0) ≡ done (pos 4, k'))
    × Forked layout (forking 0) 81920 [] [] [] [] (evens 20 256) taken k'
unfolding current alloc_data_frames alloc_frames alloc_round alloc_frame alloc_from
sys_fork-Forked_example =
    sys_fork-Forked layout (forking 0) 81920 (evens 20 256) taken fork_links-Queues
      fork_links-Family (omega arith) refl

sys_fork-no_frames_example :
    (k' : Kernel) × (sys_fork layout (forking 1) ≡ done (eagain, k'))
    × Queues layout k'.links (81928 ∷ []) [] []
    × (k'.space ≡ record ((forking 1).space) { phys = λ f. 1 })
    × ((u : ℕ) → u ≢ 81920 → k'.task u ≡ (forking 1).task u)
    × (k'.pid_counter ≡ 4)
    × (k'.esp ≡ (forking 1).esp)
unfolding alloc_data_frames alloc_frames alloc_round alloc_frame alloc_from free_frames
sys_fork-no_frames_example =
    sys_fork-no_frames layout (forking 1) 81920 [] (λ f. 1) fork_links-Queues child-Loose
      (omega arith) refl

sys_fork-sys_unblock_example :
    (k' : Kernel) × (sys_fork layout (forking 0) ≡ done (pos 4, k'))
    × ((fuel : ℕ) → sys_unblock layout 9 fuel k' ≡ out_of_fuel)
unfolding current list_head_to_task_struct alloc_data_frames alloc_frames alloc_round alloc_frame
    alloc_from
sys_fork-sys_unblock_example =
    sys_fork-sys_unblock layout (forking 0) 81920 (evens 20 256) taken 9 fork_links-Queues
      fork_links-Family (omega arith) refl (ground arith) (λ b i. ground arith)
