-- ===== src/Examples/Block.antt =====
-- sys_block at the kernel of three processes.
use fib_so.Prelude.{◌≡◌, refl, [], ◌∷◌, arith}
use fib_so.Prelude.Int.{pos}
use fib_so.Phase2.Kernel.{done, st_run, st_ready, Kernel, current}
use fib_so.Phase2.Kernel.Queues.{Queues}
use fib_so.Phase2.Sched.Next.{Dispatched}
use fib_so.Phase2.Block.{sys_block}
use fib_so.Phase2.Block.Requeue.{sys_block-requeues}
use fib_so.Examples.Data.{layout, running, queue_links-Queues, caller-Loose}

sys_block-requeues_example :
    (k' : Kernel) × (sys_block layout (running (pos 5) 0) ≡ done k')
    × Queues layout k'.links [] (77832 ∷ 69640 ∷ []) []
    × ((k'.task 69632).state ≡ st_ready)
    × ((k'.task 73728).state ≡ st_run)
    × Dispatched (running (pos 5) 0) 73728 k'
unfolding current
sys_block-requeues_example =
    sys_block-requeues layout (running (pos 5) 0) 73728 (77832 ∷ []) refl queue_links-Queues
      caller-Loose (omega arith) refl
