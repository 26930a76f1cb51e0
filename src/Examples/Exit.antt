-- ===== src/Examples/Exit.antt =====
-- sys_exit at concrete kernels.
use fib_so.Prelude.{◌≡◌, ◌+◌, ◌*◌, ◌==◌, if◌then◌else◌, refl, [], ◌∷◌, arith}
use fib_so.Prelude.Int.{pos}
use fib_so.ListHead.{Links}
use fib_so.ListHead.Ring.{IsRing}
use fib_so.Phase2.Kernel.{done, st_run, st_ready, Kernel, current}
use fib_so.Phase2.Kernel.Queues.{Queues}
use fib_so.Phase2.Space.{num_pag_data}
use fib_so.Phase2.Space.Release.{Released}
use fib_so.Phase2.Exit.{sys_exit}
use fib_so.Phase2.Exit.Childless.{sys_exit-leaves}
use fib_so.Examples.Data.{
  layout, kernel, task_at, space, queue_links, queue_links-Queues, caller-Loose,
}

-- The running process has the number 7.
abbrev seventh : Links → Kernel
seventh links =
    let k : Kernel = kernel (pos 5) links st_run 0 in
    record k { task = λ a. if a == 69632 then task_at 7 st_run 0 else task_at 2 st_ready 0 }

kids-IsRing : IsRing queue_links 69648 []
kids-IsRing = record {
  chain = (refl, refl);
  fresh_head = refl;
  distinct = tt;
  head_mapped = ground arith;
  mapped = refl;
}

sys_exit-leaves_example :
    (k' : Kernel) × (sys_exit layout 1 (seventh queue_links) ≡ done k')
    × Queues layout k'.links (69640 ∷ []) (77832 ∷ []) []
    × Released 0 num_pag_data 7 space k'.space
    × ((k'.task 73728).state ≡ st_run)
    × (k'.esp ≡ 65536 + 4096 * 2 + 4000)
    × (k'.cr3 ≡ 2)
unfolding current
sys_exit-leaves_example =
    sys_exit-leaves layout (seventh queue_links) 0 73728 (77832 ∷ []) kids-IsRing (ground arith)
      queue_links-Queues caller-Loose (omega arith) refl
