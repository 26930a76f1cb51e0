-- ===== src/Game/Keyboard.antt =====
-- so2_old/GAME/zeos/interrupt.c and include/keyboard.h: the circular buffer of key events.
pub mod Deliver
pub mod Fifo
use fib_so.Prelude.{ℕ, ◌+◌, ◌/◌, ◌%◌, ◌==◌, if◌then◌else◌, Option, none, some}

-- `struct event_t`
pub record Event : Type 0 where
  pub pressed : ℕ
  pub scancode : ℕ

-- `struct keyboard_buffer`
pub record Buffer : Type 0 where
  pub events : ℕ → Event
  pub head : ℕ
  pub tail : ℕ

abbrev pub kb_buffer_size : ℕ
kb_buffer_size = 16

keyboard_init : Buffer → Buffer
keyboard_init b = record b { head = 0; tail = 0 }

-- The event of a byte from the keyboard's port.
unfoldable pub event_of : ℕ → Event
event_of c =
    if c / 128 % 2 == 0
    then record { pressed = 1; scancode = c }
    else record { pressed = 0; scancode = c % 128 }

pub keyboard_routine : ℕ → Buffer → Buffer
keyboard_routine c b =
    let next_head : ℕ = (b.head + 1) % kb_buffer_size in
    if next_head == b.tail
    then b
    else record b { events = λ i. if i == b.head then event_of c else b.events i; head = next_head }

-- The consumer in clock_routine: the event at the tail, if there is one.
pub consume_event : Buffer → Option Event × Buffer
consume_event b =
    if b.head == b.tail
    then (none, b)
    else (some (b.events b.tail), record b { tail = (b.tail + 1) % kb_buffer_size })
