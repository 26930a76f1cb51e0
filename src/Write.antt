-- ===== src/Write.antt =====
-- zeos/sys.c: check_fd and sys_write, over the memory and the screen.
pub mod Output
use fib_so.Prelude.{ℕ, zero, suc, ◌+◌, ◌-◌, ◌==◌, ltb, not, Bool, if◌then◌else◌, Option, none, some}
use fib_so.Prelude.Int.{ℤ, pos, negsuc, neg, is_neg, to_ℕ}
use fib_so.Memory.{Mem, copy_from_user, access_ok, verify_read}
use fib_so.Console.{Screen, sys_write_console}

pub record Machine : Type 0 where
  pub mem : Mem
  pub screen : Screen

abbrev pub lectura : ℕ
lectura = 0

abbrev pub escriptura : ℕ
escriptura = 1

abbrev pub ebadf : ℤ
ebadf = neg 9

abbrev pub eacces : ℤ
eacces = neg 13

abbrev pub efault : ℤ
efault = neg 14

abbrev pub einval : ℤ
einval = neg 22

-- `fd != 1`
abbrev pub is_one : ℤ → Bool
is_one (pos n) = n == 1
is_one (negsuc n) = Bool.false

unfoldable pub check_fd : ℤ → ℕ → ℤ
check_fd fd permissions =
    if not (is_one fd) then ebadf else if not (permissions == escriptura) then eacces else pos 0

-- The loop over chunks of at most 256 bytes, which go through the buffer at `kbuffer` on the kernel
-- stack. `none` if the fuel runs out, which it does not (`Output`).
pub write_loop : ℕ → ℕ → ℕ → ℕ → ℕ → Machine → Option (ℤ × Machine)
write_loop zero kbuffer buffer bytes_left written s = none
write_loop (suc k) kbuffer buffer bytes_left written s =
    let chunk : ℕ = if ltb 256 bytes_left then 256 else bytes_left in
    let from : ℤ × Mem = copy_from_user (buffer + written) kbuffer (pos chunk) s.mem in
    let out : ℤ × Screen = sys_write_console from.1 kbuffer (pos chunk) s.screen in
    let s' : Machine = record { mem = from.1; screen = out.1 } in
    let rest = write_loop k kbuffer buffer (bytes_left - to_ℕ out.0) (written + to_ℕ out.0) s' in
    if bytes_left == 0
    then some (pos written, s)
    else if is_neg from.0
    then some (efault, record s { mem = from.1 })
    else if is_neg out.0
    then some (out.0, s')
    else rest

-- What is left to do when the file descriptor and the buffer's address are accepted.
pub write_checked : ℕ → ℕ → ℤ → Machine → Option (ℤ × Machine)
write_checked kbuffer buffer (negsuc n) s = some (einval, s)
write_checked kbuffer buffer (pos size) s =
    if access_ok verify_read buffer size == 0
    then some (efault, s)
    else write_loop (size + 1) kbuffer buffer size 0 s

pub sys_write : ℕ → ℤ → ℕ → ℤ → Machine → Option (ℤ × Machine)
unfolding write_checked
sys_write kbuffer fd buffer size s =
    let ret : ℤ = check_fd fd escriptura in
    if is_neg ret
    then some (ret, s)
    else if buffer == 0
    then some (efault, s)
    else write_checked kbuffer buffer size s
