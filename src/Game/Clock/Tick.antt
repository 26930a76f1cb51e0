-- ===== src/Game/Clock/Tick.antt =====
-- so2_old/GAME/zeos/interrupt.c: what a clock interrupt does in the states that the kernel reaches.
use fib_so.Prelude.{
  ℕ, has, zero, suc, ◌+◌, ◌%◌, ◌^◌, ◌<◌, ◌≡◌, refl, arith, ◌==◌, true, Bool-cases, inl, inr, Option,
  none, some, List, [], ◌∷◌, ◌++◌, length,
}
use fib_so.Console.{Screen, printc, printk}
use fib_so.Phase2.Interrupt.{get_elem?}
use fib_so.Phase2.Kernel.{done}
use fib_so.Game.Kernel.{Layout}
use fib_so.Game.Sched.{schedule}
use fib_so.Game.Keyboard.{Event, Buffer, consume_event}
use fib_so.Game.Keyboard.Fifo.{IsBuffer, queue, Took, consume_event-Took}
use fib_so.Game.Boot.Queued.{Placed}
use fib_so.Game.Reach.{IsSound}
use fib_so.Game.Reach.Rotate.{schedule-IsSound}
use fib_so.Game.Clock.{
  Machine, char_map, ok_text, special_text, newline, show_key, show_event, clock_routine,
}

-- The oldest event has an entry in char_map.
abbrev pub IsShown : List Event → Type 0
IsShown [] = Unit
IsShown (e ∷ es) = e.scancode < length char_map

get_elem-inside : (xs : List ℕ) (i : ℕ) → i < length xs → (c : ℕ) × (get_elem? xs i ≡ some c)
get_elem-inside [] i h = absurd (omega arith)
get_elem-inside (x ∷ xs) zero h = (x, refl)
get_elem-inside (x ∷ xs) (suc i) h = get_elem-inside xs i (omega arith)

-- printk ends where the 0 is.
printk-ends : (cs : List ℕ) (s : Screen) → has 0 cs ≡ true → (s' : Screen) × (printk cs s ≡ some s')
unfolding printk
printk-ends [] s h = absurd (ground arith)
printk-ends (c ∷ cs) s h = elim (Bool-cases (c == 0)) [
  | inl z ↦ (s, rw z refl)
  | inr nz ↦ let rest = printk-ends cs (printc c s) (ground arith) in (rest.0, rw nz rest.1)
]

show_key-some : (c : ℕ) (s : Screen) → (s' : Screen) × (show_key (some c) s ≡ some s')
show_key-some c s = elim (Bool-cases (c == 0)) [
  | inl z ↦ let p = printk-ends (ok_text ++ special_text ++ 0 ∷ []) s refl in (p.0, rw z p.1)
  | inr nz ↦
      let p = printk-ends (ok_text ++ 0 ∷ []) s refl in
      (printc newline (printc c p.0), rw (nz, p.1) refl)
]

show_event-some :
    (e : Event) (s : Screen)
    → e.scancode < length char_map
    → (s' : Screen) × (show_event (some e) s ≡ some s')
unfolding show_event
show_event-some e s h = elim (Bool-cases (e.pressed == 0)) [
  | inl up ↦ (s, rw up refl)
  | inr down ↦
      let c = get_elem-inside char_map e.scancode h in
      let shown = show_key-some c.0 s in (shown.0, rw (down, c.1) shown.1)
]

-- What is shown of the outcome of the consumer.
shown :
    (b : Buffer) (o : Option Event × Buffer) (s : Screen)
    → Took b o
    → IsShown (queue b)
    → (s' : Screen) × (show_event o.0 s ≡ some s')
unfolding show_event
shown b (none, b') s t ok = (s, refl)
shown b (some e, b') s t ok = show_event-some e s (rw t.0 at ok)

-- What a clock interrupt makes of the machine `m`.
pub record Ticked (l : Layout) (show : ℕ → Screen → Screen) (m m' : Machine) : Type 0 where
  pub took : Took m.buffer ((consume_event m.buffer).0, m'.buffer)
  pub shown : show_event (consume_event m.buffer).0 (show m.zeos_ticks m.screen) ≡ some m'.screen
  pub count : m'.zeos_ticks ≡ (m.zeos_ticks + 1) % 2 ^ 32
  pub scheduled : schedule l m.kernel ≡ done m'.kernel
  pub sound : IsSound l m'.kernel

-- With the task array aligned and the heads of the queues mapped, distinct and outside it: in a
-- state in which every process structure has its place, and with an event at the front of the
-- buffer that char_map has an entry for, or none, a clock interrupt returns: it takes the oldest
-- event out of the buffer and shows it, counts one tick, and lets the scheduler go on, after which
-- every structure has its place again.
pub clock_routine-Ticked :
    (show : ℕ → Screen → Screen) (l : Layout) (m : Machine)
    → Placed l
    → IsSound l m.kernel
    → IsBuffer m.buffer
    → IsShown (queue m.buffer)
    → (m' : Machine) × (clock_routine show l m ≡ done m') × Ticked l show m m'
unfolding clock_routine
clock_routine-Ticked show l m placed s ok front =
    let o : Option Event × Buffer = consume_event m.buffer in
    let t = consume_event-Took m.buffer ok in
    let d = shown m.buffer o (show m.zeos_ticks m.screen) t front in
    let k = schedule-IsSound l m.kernel placed s.1 s.2 in
    (
      record { screen = d.0; zeos_ticks = (m.zeos_ticks + 1) % 2 ^ 32; buffer = o.1; kernel = k.0 },
      rw (d.1, k.1) refl,
      record { took = t; shown = d.1; count = refl; scheduled = k.1; sound = k.2 },
    )
