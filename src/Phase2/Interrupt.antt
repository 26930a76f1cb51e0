-- ===== src/Phase2/Interrupt.antt =====
-- so2_old/E1_E2/zeos/interrupt.c: the interrupt table, the keyboard, clock and page fault routines.
pub mod Gates
pub mod Hex
pub mod Keyboard
use fib_so.Prelude.{
  ℕ, zero, suc, ◌+◌, ◌-◌, ◌*◌, ◌/◌, ◌%◌, ◌^◌, ◌==◌, ltb, if◌then◌else◌, update, Option, none, some,
  List, [], ◌∷◌, ◌++◌, ◌>>=◌,
}
use fib_so.Memory.{Mem, bytes}
use fib_so.Phase2.Segments.{Register}
use fib_so.Console.{Screen, newline, printc, printc_xy, printk}

-- `Gate`, and `idt` as a function of the vector.
pub record Gate : Type 0 where
  pub low_offset : ℕ
  pub segment_selector : ℕ
  pub flags : ℕ
  pub high_offset : ℕ

abbrev pub Idt : Type 0
Idt = ℕ → Gate

abbrev pub kernel_cs : ℕ
kernel_cs = 0x10

-- `(Word)(maxAccessibleFromPL << 13)` with the bits of 0x8E00 set, bit 15 among them.
abbrev pub gate_flags : ℕ → ℕ
gate_flags level = level % 4 * 2 ^ 13 + 0x8E00

unfoldable pub set_interrupt_handler : ℕ → ℕ → ℕ → Idt → Idt
set_interrupt_handler vector handler level idt v =
    if v == vector
    then record {
      low_offset = handler % 2 ^ 16;
      segment_selector = kernel_cs;
      flags = gate_flags level;
      high_offset = handler / 2 ^ 16 % 2 ^ 16;
    }
    else idt v

-- The same, since the trap gate was made an interrupt gate.
unfoldable pub set_trap_handler : ℕ → ℕ → ℕ → Idt → Idt
set_trap_handler vector handler level idt v =
    if v == vector
    then record {
      low_offset = handler % 2 ^ 16;
      segment_selector = kernel_cs;
      flags = gate_flags level;
      high_offset = handler / 2 ^ 16 % 2 ^ 16;
    }
    else idt v

-- The addresses of the handlers, and set_handlers of libzeos.
pub record Handlers : Type 0 where
  pub keyboard_handler : ℕ
  pub clock_handler : ℕ
  pub my_page_fault_handler : ℕ
  pub system_call_handler : ℕ
  pub syscall_handler_sysenter : ℕ
  pub set_handlers : Idt → Idt

-- The model specific registers 0x174, 0x175 and 0x176.
pub record Msrs : Type 0 where
  pub sysenter_cs : ℕ
  pub sysenter_esp : ℕ
  pub sysenter_eip : ℕ

-- The table at `base`, as set_handlers and the handlers make it, and what is loaded into the register
-- of the table, `idtR`, and into the model specific ones. A gate has 8 bytes.
pub set_idt : Handlers → ℕ → ℕ → Idt → Idt × Register × Msrs
set_idt h initial_esp base idt =
    let r : Register = record { limit = 256 * 8 - 1; base = base } in
    let idt1 : Idt = h.set_handlers idt in
    let idt2 : Idt = set_interrupt_handler 33 h.keyboard_handler 0 idt1 in
    let idt3 : Idt = set_interrupt_handler 32 h.clock_handler 0 idt2 in
    let idt4 : Idt = set_interrupt_handler 14 h.my_page_fault_handler 0 idt3 in
    (
      set_trap_handler 0x80 h.system_call_handler 3 idt4,
      r,
      record {
        sysenter_cs = kernel_cs;
        sysenter_esp = initial_esp;
        sysenter_eip = h.syscall_handler_sysenter;
      },
    )

-- The file's four characters outside ASCII are character constants of several bytes, the last of
-- which the compiler keeps.
abbrev pub char_map : List ℕ
char_map =
    0 ∷ 0 ∷ b'1' ∷ b'2' ∷ b'3' ∷ b'4' ∷ b'5' ∷ b'6' ∷ b'7' ∷ b'8' ∷ b'9' ∷ b'0' ∷ 39 ∷ 189 ∷ 0 ∷ 0
    ∷ b'q' ∷ b'w' ∷ b'e' ∷ b'r' ∷ b't' ∷ b'y' ∷ b'u' ∷ b'i' ∷ b'o' ∷ b'p' ∷ b'`' ∷ b'+' ∷ 0 ∷ 0
    ∷ b'a' ∷ b's' ∷ b'd' ∷ b'f' ∷ b'g' ∷ b'h' ∷ b'j' ∷ b'k' ∷ b'l' ∷ 189 ∷ 0 ∷ 189 ∷ 0 ∷ 189 ∷ b'z'
    ∷ b'x' ∷ b'c' ∷ b'v' ∷ b'b' ∷ b'n' ∷ b'm' ∷ b',' ∷ b'.' ∷ b'-' ∷ 0 ∷ b'*' ∷ 0 ∷ 0 ∷ 0 ∷ 0 ∷ 0
    ∷ 0 ∷ 0 ∷ 0 ∷ 0 ∷ 0 ∷ 0 ∷ 0 ∷ 0 ∷ 0 ∷ 0 ∷ b'7' ∷ b'8' ∷ b'9' ∷ b'-' ∷ b'4' ∷ b'5' ∷ b'6' ∷ b'+'
    ∷ b'1' ∷ b'2' ∷ b'3' ∷ b'0' ∷ 0 ∷ 0 ∷ 0 ∷ b'<' ∷ 0 ∷ 0 ∷ 0 ∷ 0 ∷ 0 ∷ 0 ∷ 0 ∷ 0 ∷ 0 ∷ 0 ∷ 0 ∷ []

-- The entry of a table; `none` behind its end.
abbrev pub get_elem? : List ℕ → ℕ → Option ℕ
get_elem? [] i = none
get_elem? (x ∷ xs) zero = some x
get_elem? (x ∷ xs) (suc i) = get_elem? xs i

-- With the byte read from the keyboard's port. `none` where char_map is read past its end.
pub keyboard_routine : ℕ → Screen → Option Screen
keyboard_routine kb_register s =
    let is_break : ℕ = kb_register / 128 % 2 in
    let code : ℕ = kb_register % 128 in
    if is_break == 0
    then (get_elem? char_map code >>= λ to_print.
        some (if to_print == 0 then printc_xy 0 0 b'C' s else printc_xy 0 0 to_print s))
    else some s

-- zeos_show_clock of libzeos is a parameter.
pub clock_routine {ℓ} : {A : Type ℓ} → (ℕ → A → A) → ℕ × A → ℕ × A
clock_routine show (zeos_ticks, s) =
    let ticks : ℕ = (zeos_ticks + 1) % 2 ^ 32 in (ticks, show ticks s)

-- `for (i = i - 1; i >= 0; i--)` with the digits of `address`.
pub hex_from : ℕ → ℕ → ℕ → Mem → Mem
hex_from zero address s m = m
hex_from (suc i) address s m =
    let digit : ℕ = address % 16 in
    let c : ℕ = if ltb digit 10 then b'0' + digit else b'A' + digit - 10 in
    hex_from i (address / 16) s (update m (s + i) c)

pub hex_convertor : ℕ → ℕ → Mem → Mem
hex_convertor address s m = hex_from 8 address s (update m (s + 8) 0)

-- The bytes of a string in memory with its closing 0, which hex_convertor puts behind 8 digits.
abbrev hex_string : ℕ → ℕ → Mem → List ℕ
hex_string address s m = bytes (hex_convertor address s m) s 9

-- "Process generates a PAGE FAULT exception at EIP: 0x" and "Error Code: 0x"
abbrev pub fault_text : List ℕ
fault_text =
    b'P' ∷ b'r' ∷ b'o' ∷ b'c' ∷ b'e' ∷ b's' ∷ b's' ∷ b' ' ∷ b'g' ∷ b'e' ∷ b'n' ∷ b'e' ∷ b'r' ∷ b'a'
    ∷ b't' ∷ b'e' ∷ b's' ∷ b' ' ∷ b'a' ∷ b' ' ∷ b'P' ∷ b'A' ∷ b'G' ∷ b'E' ∷ b' ' ∷ b'F' ∷ b'A'
    ∷ b'U' ∷ b'L' ∷ b'T' ∷ b' ' ∷ b'e' ∷ b'x' ∷ b'c' ∷ b'e' ∷ b'p' ∷ b't' ∷ b'i' ∷ b'o' ∷ b'n'
    ∷ b' ' ∷ b'a' ∷ b't' ∷ b' ' ∷ b'E' ∷ b'I' ∷ b'P' ∷ b':' ∷ b' ' ∷ b'0' ∷ b'x' ∷ []

abbrev pub error_text : List ℕ
error_text =
    b'E' ∷ b'r' ∷ b'r' ∷ b'o' ∷ b'r' ∷ b' ' ∷ b'C' ∷ b'o' ∷ b'd' ∷ b'e' ∷ b':' ∷ b' ' ∷ b'0' ∷ b'x'
    ∷ []

-- What my_page_fault_routine prints before it stops for ever; `s` is its buffer.
page_fault_screen : ℕ → ℕ → ℕ → Mem → Screen → Option Screen
page_fault_screen error eip s m t = do
  t ← printk (fault_text ++ 0 ∷ []) t
  t ← printk (hex_string eip s m) t
  t ← printk (error_text ++ 0 ∷ []) (printc newline t)
  t ← printk (hex_string error s (hex_convertor eip s m)) t
  some (printc newline t)
