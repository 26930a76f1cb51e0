-- ===== src/Examples/Devices.antt =====
-- The interrupt table, the segments, do_div and itoa at concrete inputs.
use fib_so.Prelude.{ℕ, ◌<◌, ◌+◌, ◌^◌, ◌≡◌, ◌≢◌, ◌*◌, leb, ltb, some, arith}
use fib_so.Prelude.Int.{pos}
use fib_so.Memory.{Mem}
use fib_so.Phase2.Segments.{Descriptor, set_gdt, set_tss, IsReady, set_gdt-IsReady}
use fib_so.Phase2.Interrupt.{Handlers, Idt, set_idt}
use fib_so.Phase2.Interrupt.Gates.{target, level, IsKernelGate, set_idt-target}
use fib_so.Game.Ticks.{do_div, do_div-quotient}
use fib_so.Libc.{itoa, strlen}
use fib_so.Libc.Digits.{Printed, itoa-Printed}

abbrev zeros : Mem
zeros a = 0

itoa-Printed_example :
    (n : ℕ) × (0 < n)
    × Printed 120 50 zeros n (itoa (pos 120) 50 zeros)
    × ((fuel : ℕ) → n < fuel → strlen fuel 50 (itoa (pos 120) 50 zeros) ≡ some n)
itoa-Printed_example = itoa-Printed 120 50 zeros

do_div-quotient_example : do_div (2 ^ 40 + 5) 109000 ≡ some (10087262, 69781)
do_div-quotient_example = do_div-quotient (2 ^ 40 + 5) 109000 (omega arith) (omega arith)

abbrev descriptors : ℕ → Descriptor
descriptors i = record {
  limit = 103;
  low_base = 0;
  mid_base = 0;
  flags1 = 137;
  flags2 = 0;
  high_base = 0;
}

set_gdt-IsReady_example :
    let o = set_gdt 0x12345678 descriptors in
    IsReady 0x12345678 descriptors o.0 o.1 (set_tss 65536).1
set_gdt-IsReady_example = set_gdt-IsReady 0x12345678 65536 descriptors (omega arith)

abbrev handlers : Handlers
handlers = record {
  keyboard_handler = 70000;
  clock_handler = 70100;
  my_page_fault_handler = 70200;
  system_call_handler = 70300;
  syscall_handler_sysenter = 70400;
  set_handlers = λ t. t;
}

abbrev no_gates : Idt
no_gates v = record { low_offset = 0; segment_selector = 0; flags = 0; high_offset = 0 }

set_idt-target_example :
    ((target ((set_idt handlers 0 4096 no_gates).0 33) ≡ 70000)
      × (level ((set_idt handlers 0 4096 no_gates).0 33) ≡ 0)
      × IsKernelGate ((set_idt handlers 0 4096 no_gates).0 33))
    × ((target ((set_idt handlers 0 4096 no_gates).0 32) ≡ 70100)
        × (level ((set_idt handlers 0 4096 no_gates).0 32) ≡ 0)
        × IsKernelGate ((set_idt handlers 0 4096 no_gates).0 32))
    × ((target ((set_idt handlers 0 4096 no_gates).0 14) ≡ 70200)
        × (level ((set_idt handlers 0 4096 no_gates).0 14) ≡ 0)
        × IsKernelGate ((set_idt handlers 0 4096 no_gates).0 14))
    × ((target ((set_idt handlers 0 4096 no_gates).0 0x80) ≡ 70300)
        × (level ((set_idt handlers 0 4096 no_gates).0 0x80) ≡ 3)
        × IsKernelGate ((set_idt handlers 0 4096 no_gates).0 0x80))
    × ((v : ℕ)
        → v ≢ 33
        → v ≢ 32
        → v ≢ 14
        → v ≢ 0x80
        → (set_idt handlers 0 4096 no_gates).0 v ≡ no_gates v)
    × (((set_idt handlers 0 4096 no_gates).1.base ≡ 4096)
        × ((v : ℕ) → leb (8 * v + 7) (set_idt handlers 0 4096 no_gates).1.limit ≡ ltb v 256))
set_idt-target_example =
    set_idt-target handlers 0 4096 no_gates (omega arith) (omega arith) (omega arith) (omega arith)
