-- ===== src/Game/Calls.antt =====
-- so2_old/GAME/zeos/sys.c and utils.c: access_ok, sys_write, sys_get_stats, sys_yield and
-- sys_pollEvent.
pub mod Output
pub mod Search
use fib_so.Prelude.{
  ℕ, zero, suc, ◌+◌, ◌-◌, ◌*◌, ◌/◌, ◌%◌, ◌^◌, ◌==◌, leb, ltb, ◌&&◌, Bool, false, if◌then◌else◌,
  Option, none, some,
}
use fib_so.Prelude.Int.{ℤ, pos, negsuc, neg, is_neg, to_ℕ}
use fib_so.ListHead.{Ptr}
use fib_so.Memory.{Mem, copy_from_user, copy_to_user, verify_read, verify_write}
use fib_so.Console.{Screen, sys_write_console}
use fib_so.Write.{Machine, check_fd, escriptura, efault, einval}
use fib_so.Phase2.Kernel.{Run, done, ◌>>=◌}
use fib_so.Game.Kernel.{Stats, Task, Layout, Kernel, set_task}
use fib_so.Game.Sched.{is_zero, force_task_switch}

abbrev user_first_page : ℕ
user_first_page = 0x100000 / 4096

-- The last page that access_ok lets the block end in, one behind the user's pages.
abbrev user_end : ℕ
user_end = user_first_page + 28

-- The `default:` case of the switch, into which VERIFY_WRITE falls through.
abbrev access_default : ℕ → ℕ → ℕ
access_default addr_ini addr_fin =
    if leb user_first_page addr_ini && leb addr_fin user_end then 1 else 0

unfoldable pub access_ok : ℕ → ℕ → ℕ → ℕ
access_ok type addr size =
    let addr_ini : ℕ = addr / 4096 in
    let addr_fin : ℕ = (addr + size) % 2 ^ 32 / 4096 in
    if ltb addr_fin addr_ini
    then 0
    else if type == verify_write
    then (if leb (user_first_page + 8) addr_ini && leb addr_fin user_end
        then 1
        else access_default addr_ini addr_fin)
    else access_default addr_ini addr_fin

abbrev pub tam_buffer : ℕ
tam_buffer = 512

-- The last chunk: the bytes left behind it, and the machine.
pub write_last : ℕ → ℕ → ℕ → Machine → ℕ × Machine
write_last localbuffer buffer bytes_left s =
    let copy : ℤ × Mem = copy_from_user buffer localbuffer (pos bytes_left) s.mem in
    let out : ℤ × Screen = sys_write_console copy.1 localbuffer (pos bytes_left) s.screen in
    if ltb 0 bytes_left
    then (bytes_left - to_ℕ out.0, record { mem = copy.1; screen = out.1 })
    else (bytes_left, s)

-- The loop over chunks of 512 bytes and what follows it. `none` if the fuel runs out, which it does
-- not (`Output`).
pub write_loop : ℕ → ℕ → ℕ → ℕ → Machine → Option (ℕ × Machine)
write_loop zero localbuffer buffer bytes_left s = none
write_loop (suc k) localbuffer buffer bytes_left s =
    let copy : ℤ × Mem = copy_from_user buffer localbuffer (pos tam_buffer) s.mem in
    let out : ℤ × Screen = sys_write_console copy.1 localbuffer (pos tam_buffer) s.screen in
    let rest =
      write_loop k localbuffer (buffer + to_ℕ out.0) (bytes_left - to_ℕ out.0)
        (record { mem = copy.1; screen = out.1 }) in
    if ltb tam_buffer bytes_left then rest else some (write_last localbuffer buffer bytes_left s)

-- The number of bytes written, from those left.
abbrev written : ℕ → Option (ℕ × Machine) → Option (ℤ × Machine)
written nbytes none = none
written nbytes (some (bytes_left, s)) = some (pos (nbytes - bytes_left), s)

pub write_checked : ℕ → ℕ → ℤ → Machine → Option (ℤ × Machine)
write_checked localbuffer buffer (negsuc n) s = some (einval, s)
write_checked localbuffer buffer (pos nbytes) s =
    let rest = written nbytes (write_loop (nbytes + 1) localbuffer buffer nbytes s) in
    if access_ok verify_read buffer nbytes == 0 then some (efault, s) else rest

pub sys_write : ℕ → ℤ → ℕ → ℤ → Machine → Option (ℤ × Machine)
sys_write localbuffer fd buffer nbytes s =
    let ret : ℤ = check_fd fd escriptura in
    if is_zero ret then write_checked localbuffer buffer nbytes s else some (ret, s)

abbrev pub esrch : ℤ
esrch = neg 3

abbrev pub eq_ℤ : ℤ → ℤ → Bool
eq_ℤ (pos m) (pos n) = m == n
eq_ℤ (pos m) (negsuc n) = false
eq_ℤ (negsuc m) (pos n) = false
eq_ℤ (negsuc m) (negsuc n) = m == n

-- The first structure of the `n` from the `i`-th on that has the number.
pub find_pid : ℕ → ℕ → ℤ → Layout → Kernel → Option Ptr
find_pid zero i pid l k = none
find_pid (suc n) i pid l k =
    let rest = find_pid n (i + 1) pid l k in
    if eq_ℤ (k.task (l.task + 4096 * i)).pid pid then some (l.task + 4096 * i) else rest

-- An int as an `unsigned long`.
abbrev pub unsigned : ℤ → ℕ
unsigned (pos n) = n
unsigned (negsuc n) = 2 ^ 32 - (n + 1)

-- With the statistics that are copied to the user, where they are.
pub report : Option Ptr → Kernel → ℤ × Option Stats × Kernel
report none k = (esrch, none, k)
report (some t) k =
    let s : Stats = record ((k.task t).p_stats) {
      remaining_ticks = unsigned k.remaining_quantum;
    } in
    (pos 0, some s, set_task t (record (k.task t) { p_stats = s }) k)

pub sys_get_stats : Layout → ℤ → ℕ → Kernel → ℤ × Option Stats × Kernel
sys_get_stats l pid st k =
    if access_ok verify_write st 28 == 0
    then (efault, none, k)
    else if is_neg pid
    then (einval, none, k)
    else report (find_pid 10 0 pid l k) k

sys_yield : Layout → Kernel → Run (ℤ × Kernel)
sys_yield l k = do k ← force_task_switch l k; done (pos 0, k)

-- `keyboard_buffer` is the address of the kernel's table of keys.
sys_poll_event : ℕ → ℕ → Mem → ℤ × Mem
sys_poll_event keyboard_buffer keyboard m =
    let copy : ℤ × Mem = copy_to_user keyboard_buffer keyboard (pos 128) m in
    if access_ok verify_write keyboard 128 == 0
    then (efault, m)
    else if is_neg copy.0
    then (efault, copy.1)
    else (pos 0, copy.1)
