-- ===== src/Phase2/Write.antt =====
-- so2_old/E1_E2/zeos/sys.c: sys_write, whose chunks go through the global `dest_buffer`.
pub mod Output
use fib_so.Prelude.{ℕ, zero, suc, ◌+◌, ◌-◌, ◌==◌, ltb, if◌then◌else◌, Option, none, some}
use fib_so.Prelude.Int.{ℤ, pos, negsuc, is_neg, to_ℕ}
use fib_so.Memory.{Mem, copy_from_user}
use fib_so.Console.{Screen, sys_write_console}
use fib_so.Write.{Machine, check_fd, escriptura, efault, einval}

abbrev pub buffer_size : ℕ
buffer_size = 256

-- The last chunk, of at most 256 bytes. It is copied to `dest_buffer`, and printed from `buffer`.
pub write_last : ℕ → ℕ → ℕ → ℕ → ℕ → Machine → ℤ × Machine
write_last dest_buffer buffer bytes_left bytes_written buffer_offset s =
    let copy : ℤ × Mem =
      copy_from_user (buffer + buffer_offset) dest_buffer (pos bytes_left) s.mem in
    let out : ℤ × Screen = sys_write_console copy.1 buffer (pos bytes_left) s.screen in
    if ltb 0 bytes_left
    then (if is_neg copy.0
        then (efault, record s { mem = copy.1 })
        else (pos (bytes_written + to_ℕ out.0), record { mem = copy.1; screen = out.1 }))
    else (pos bytes_written, s)

-- The loop over chunks of 256 bytes, and what follows it. `none` if the fuel runs out, which it
-- does not (`Output`).
pub write_loop : ℕ → ℕ → ℕ → ℕ → ℕ → ℕ → Machine → Option (ℤ × Machine)
write_loop zero dest_buffer buffer bytes_left bytes_written buffer_offset s = none
write_loop (suc k) dest_buffer buffer bytes_left bytes_written buffer_offset s =
    let copy : ℤ × Mem =
      copy_from_user (buffer + buffer_offset) dest_buffer (pos buffer_size) s.mem in
    let out : ℤ × Screen = sys_write_console copy.1 dest_buffer (pos buffer_size) s.screen in
    let rest =
      write_loop k dest_buffer buffer (bytes_left - buffer_size) (bytes_written + to_ℕ out.0)
        (buffer_offset + buffer_size) (record { mem = copy.1; screen = out.1 }) in
    if ltb buffer_size bytes_left
    then (if is_neg copy.0 then some (efault, record s { mem = copy.1 }) else rest)
    else some (write_last dest_buffer buffer bytes_left bytes_written buffer_offset s)

write_sized : ℕ → ℕ → ℤ → Machine → Option (ℤ × Machine)
write_sized dest_buffer buffer (negsuc n) s = some (einval, s)
write_sized dest_buffer buffer (pos size) s = write_loop (size + 1) dest_buffer buffer size 0 0 s

pub sys_write : ℕ → ℤ → ℕ → ℤ → Machine → Option (ℤ × Machine)
unfolding write_sized
sys_write dest_buffer fd buffer size s =
    let error_fd : ℤ = check_fd fd escriptura in
    if is_neg error_fd
    then some (error_fd, s)
    else if buffer == 0
    then some (efault, s)
    else write_sized dest_buffer buffer size s
