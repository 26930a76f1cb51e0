-- ===== src/Phase2/Interrupt/Gates.antt =====
-- so2_old/E1_E2/zeos/interrupt.c: the gates that setIdt sets up.
use fib_so.Prelude.{ℕ, ◌+◌, ◌*◌, ◌/◌, ◌%◌, ◌^◌, ◌<◌, ◌≡◌, ◌≢◌, refl, leb, ltb, arith}
use fib_so.Phase2.Interrupt.{
  Gate, Idt, Handlers, kernel_cs, set_interrupt_handler, set_trap_handler, set_idt,
}

-- The address that a gate leads to, and the privilege level from which `int` may use it.
abbrev pub target : Gate → ℕ
target g = g.high_offset * 2 ^ 16 + g.low_offset

abbrev pub level : Gate → ℕ
level g = g.flags / 2 ^ 13 % 4

-- A present 32-bit interrupt gate of the kernel's code segment.
abbrev pub IsKernelGate : Gate → Type 0
IsKernelGate g =
    (g.segment_selector ≡ kernel_cs) × (g.flags / 2 ^ 15 ≡ 1) × (g.flags % 2 ^ 13 ≡ 0xE00)

-- A gate leads to its handler, in the kernel's code segment, present, and only it is changed.
gate-target :
    (v handler lvl : ℕ) (idt : Idt)
    → handler < 2 ^ 32
    → lvl < 4
    → (target (set_interrupt_handler v handler lvl idt v) ≡ handler)
      × (level (set_interrupt_handler v handler lvl idt v) ≡ lvl)
      × IsKernelGate (set_interrupt_handler v handler lvl idt v)
unfolding set_interrupt_handler
gate-target v handler lvl idt h l =
    (ground arith, ground arith, (ground arith, ground arith, ground arith))

-- With handlers at 32-bit addresses, setIdt makes the vectors 14, 32, 33 and 0x80 gates of the kernel
-- that lead to the page fault, the clock, the keyboard and the system call handlers; user code can
-- call 0x80 only of these; the other vectors are as set_handlers left them. The register of the table
-- has its address and a limit that takes in the 8 bytes of just the vectors below 256.
pub set_idt-target :
    (h : Handlers) (esp base : ℕ) (idt : Idt)
    → h.keyboard_handler < 2 ^ 32
    → h.clock_handler < 2 ^ 32
    → h.my_page_fault_handler < 2 ^ 32
    → h.system_call_handler < 2 ^ 32
    → let t = (set_idt h esp base idt).0 in
      let r = (set_idt h esp base idt).1 in
      ((target (t 33) ≡ h.keyboard_handler) × (level (t 33) ≡ 0) × IsKernelGate (t 33))
      × ((target (t 32) ≡ h.clock_handler) × (level (t 32) ≡ 0) × IsKernelGate (t 32))
      × ((target (t 14) ≡ h.my_page_fault_handler) × (level (t 14) ≡ 0) × IsKernelGate (t 14))
      × ((target (t 0x80) ≡ h.system_call_handler) × (level (t 0x80) ≡ 3) × IsKernelGate (t 0x80))
      × ((v : ℕ) → v ≢ 33 → v ≢ 32 → v ≢ 14 → v ≢ 0x80 → t v ≡ h.set_handlers idt v)
      × ((r.base ≡ base) × ((v : ℕ) → leb (8 * v + 7) r.limit ≡ ltb v 256))
unfolding set_idt set_interrupt_handler set_trap_handler
set_idt-target h esp base idt hk hc hp hs = (
  gate-target 33 h.keyboard_handler 0 idt hk (omega arith),
  gate-target 32 h.clock_handler 0 idt hc (omega arith),
  gate-target 14 h.my_page_fault_handler 0 idt hp (omega arith),
  gate-target 0x80 h.system_call_handler 3 idt hs (omega arith),
  (λ v a b c d. ground arith),
  (refl, λ v. ground arith),
)
