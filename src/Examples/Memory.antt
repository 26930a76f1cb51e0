-- ===== src/Examples/Memory.antt =====
-- Copies, the check of user pointers, and the two sys_write at concrete inputs.
use fib_so.Prelude.{
  ℕ, ◌+◌, ◌-◌, ◌≤◌, ◌<◌, ◌≡◌, ◌↔◌, refl, inl, ltb, leb, ◌&&◌, false, arith, some, ◌++◌,
}
use fib_so.Prelude.Int.{ℤ, pos}
use fib_so.Memory.{Mem, bytes, copy_data, access_ok, verify_read}
use fib_so.Memory.Copy.{copy_data-copied}
use fib_so.Memory.Access.{access_ok-range}
use fib_so.Console.Cursor.{print_all}
use fib_so.Write.{Machine, ebadf, efault, einval}
use fib_so.Write.Output.{sys_write-prints}
use fib_so.Phase2.Write.Output.{sys_write-repeats, last_chunk}
use fib_so.Write as Current
use fib_so.Phase2.Write as Old
use fib_so.Examples.Data.{blank}

-- Each byte is the low part of its address.
abbrev mem : Mem
mem a = a

abbrev machine : Machine
machine = record { mem = mem; screen = blank }

copy_data-copied_example : copy_data 1000 2000 (pos 10) mem 2003 ≡ 1003
copy_data-copied_example = copy_data-copied 1000 2000 10 mem 2003 (inl (omega arith))

access_ok-range_example :
    (access_ok verify_read 0x400000 100 ≡ 1) ↔ ((0x400000 ≤ 0x400000) × (0x400000 + 100 < 0x41d000))
access_ok-range_example = access_ok-range verify_read 0x400000 100 (omega arith) (omega arith)

sys_write-prints_example :
    (m' : Mem) × (Current.sys_write 1000 (pos 1) 0x400000 (pos 300) machine
      ≡ some (pos 300, record { mem = m'; screen = print_all (bytes mem 0x400000 300) blank }))
    × ((a : ℕ) → (leb 1000 a && ltb a (1000 + 256)) ≡ false → m' a ≡ mem a)
unfolding access_ok
sys_write-prints_example =
    sys_write-prints 1000 0x400000 300 machine (ground arith) refl (inl (omega arith))

sys_write-repeats_example :
    (r : ℤ × Machine) × (Old.sys_write 1000 (pos 1) 0x100000 (pos 300) machine ≡ some r)
    × (r.0 ≡ pos 300)
    × (r.1.screen
        ≡ print_all
            (bytes mem 0x100000 (300 - last_chunk 300) ++ bytes mem 0x100000 (last_chunk 300))
            blank)
sys_write-repeats_example =
    sys_write-repeats 1000 0x100000 300 machine (ground arith) (inl (omega arith))
