-- ===== src/Game/Clock.antt =====
-- so2_old/GAME/zeos/interrupt.c: the clock interrupt, which consumes one key event, shows it, and
-- gives the scheduler its tick.

pub mod Tick
use fib_so.Prelude.{ℕ, ◌+◌, ◌%◌, ◌^◌, ◌==◌, if◌then◌else◌, Option, none, some, List, [], ◌∷◌, ◌++◌}
use fib_so.Console.{Screen, printc, printk}
use fib_so.Phase2.Interrupt.{get_elem?}
use fib_so.Phase2.Kernel.{Run, done, lift, ◌>>=◌}
use fib_so.Game.Kernel.{Layout, Kernel}
use fib_so.Game.Sched.{schedule}
use fib_so.Game.Keyboard.{Event, Buffer, consume_event}

pub record Machine : Type 0 where
  pub screen : Screen
  pub zeos_ticks : ℕ
  pub buffer : Buffer
  pub kernel : Kernel

-- The file is in UTF-8; of its four characters outside ASCII the compiler keeps the last byte.
abbrev pub char_map : List ℕ
char_map =
    0 ∷ 0 ∷ b'1' ∷ b'2' ∷ b'3' ∷ b'4' ∷ b'5' ∷ b'6' ∷ b'7' ∷ b'8' ∷ b'9' ∷ b'0' ∷ 39 ∷ 161 ∷ 0 ∷ 0
    ∷ b'q' ∷ b'w' ∷ b'e' ∷ b'r' ∷ b't' ∷ b'y' ∷ b'u' ∷ b'i' ∷ b'o' ∷ b'p' ∷ b'`' ∷ b'+' ∷ 0 ∷ 0
    ∷ b'a' ∷ b's' ∷ b'd' ∷ b'f' ∷ b'g' ∷ b'h' ∷ b'j' ∷ b'k' ∷ b'l' ∷ 177 ∷ 0 ∷ 186 ∷ 0 ∷ 167 ∷ b'z'
    ∷ b'x' ∷ b'c' ∷ b'v' ∷ b'b' ∷ b'n' ∷ b'm' ∷ b',' ∷ b'.' ∷ b'-' ∷ 0 ∷ b'*' ∷ 0 ∷ 0 ∷ 0 ∷ 0 ∷ 0
    ∷ 0 ∷ 0 ∷ 0 ∷ 0 ∷ 0 ∷ 0 ∷ 0 ∷ 0 ∷ 0 ∷ 0 ∷ b'7' ∷ b'8' ∷ b'9' ∷ b'-' ∷ b'4' ∷ b'5' ∷ b'6' ∷ b'+'
    ∷ b'1' ∷ b'2' ∷ b'3' ∷ b'0' ∷ 0 ∷ 0 ∷ 0 ∷ b'<' ∷ 0 ∷ 0 ∷ 0 ∷ 0 ∷ 0 ∷ 0 ∷ 0 ∷ 0 ∷ 0 ∷ 0 ∷ 0 ∷ []

abbrev pub newline : ℕ
newline = 10

-- "Buffer OK: "
abbrev pub ok_text : List ℕ
ok_text = b'B' ∷ b'u' ∷ b'f' ∷ b'f' ∷ b'e' ∷ b'r' ∷ b' ' ∷ b'O' ∷ b'K' ∷ b':' ∷ b' ' ∷ []

-- "[Special Key]" and the end of the line
abbrev pub special_text : List ℕ
special_text =
    b'[' ∷ b'S' ∷ b'p' ∷ b'e' ∷ b'c' ∷ b'i' ∷ b'a' ∷ b'l' ∷ b' ' ∷ b'K' ∷ b'e' ∷ b'y' ∷ b']'
    ∷ newline ∷ []

-- The character and the end of the line, behind what is printed.
abbrev pub key_line : ℕ → Option Screen → Option Screen
key_line c none = none
key_line c (some s) = some (printc newline (printc c s))

abbrev pub show_key : Option ℕ → Screen → Option Screen
show_key none s = none
show_key (some c) s =
    if c == 0
    then printk (ok_text ++ special_text ++ 0 ∷ []) s
    else key_line c (printk (ok_text ++ 0 ∷ []) s)

-- `none` where char_map is read past its end.
pub show_event : Option Event → Screen → Option Screen
show_event none s = some s
show_event (some ev) s =
    if ev.pressed == 0 then some s else show_key (get_elem? char_map ev.scancode) s

-- zeos_show_clock of libzeos, which reads zeos_ticks, is a parameter.
pub clock_routine : (ℕ → Screen → Screen) → Layout → Machine → Run Machine
clock_routine show l m = do
  let o = consume_event m.buffer
  s ← lift (show_event o.0 (show m.zeos_ticks m.screen))
  k ← schedule l m.kernel
  done (record { screen = s; zeos_ticks = (m.zeos_ticks + 1) % 2 ^ 32; buffer = o.1; kernel = k })
