-- ===== src/Phase2/Exit/First.antt =====
-- so2_old/E1_E2/zeos/sys.c: sys_exit of the first process.
use fib_so.Prelude.{ℕ, ◌≡◌, refl, true, false, [], arith, ◌==◌}
use fib_so.ListHead.{null, get_next, list_first}
use fib_so.Console.Cursor.{print_all, printk-print_all}
use fib_so.Phase2.Kernel.{done, Layout, Kernel, kids_of, current}
use fib_so.Phase2.Exit.{cannot_exit, sys_exit}

-- The process with the number 1 cannot exit: whatever its children are, sys_exit returns, has
-- printed its message, and has changed nothing else.
pub sys_exit-print_all :
    (l : Layout) (k : Kernel) (fuel : ℕ)
    → (k.task (current k)).pid ≡ 1
    → sys_exit l fuel k ≡ done (record k { screen = print_all cannot_exit k.screen })
unfolding sys_exit list_first get_next
sys_exit-print_all l k fuel one =
    let is_one : ((k.task (current k)).pid == 1) ≡ true = ground arith in
    let mapped : (kids_of (current k) == null) ≡ false = ground arith in
    rw (mapped, is_one, printk-print_all cannot_exit [] k.screen refl)
