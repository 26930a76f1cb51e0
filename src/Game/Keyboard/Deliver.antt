-- ===== src/Game/Keyboard/Deliver.antt =====
-- so2_old/GAME/zeos/interrupt.c: key events and clock interrupts in any order, on the circular buffer
-- and on a plain queue of at most 15 events.
use fib_so.Prelude.{
  ℕ, ◌≡◌, ◌∙◌, ap, refl, ◌==◌, if◌then◌else◌, Option, none, some, List, [], ◌∷◌, ◌++◌, length,
}
use fib_so.Game.Keyboard.{Event, Buffer, event_of, keyboard_routine, consume_event}
use fib_so.Game.Keyboard.Fifo.{IsBuffer, queue, Took, keyboard_routine-append, consume_event-Took}

-- The byte that a key sends, or the clock.
pub data Interrupt : Type 0 where
  key_event : ℕ → Interrupt
  clock_tick : Interrupt

abbrev taken : Option Event → List Event → List Event
taken none es = es
taken (some e) es = e ∷ es

-- The events that the consumer gets in the course of the interrupts, and the buffer after them.
pub deliver : List Interrupt → Buffer → List Event × Buffer
deliver [] b = ([], b)
deliver (key_event c ∷ is) b = deliver is (keyboard_routine c b)
deliver (clock_tick ∷ is) b =
    let o : Option Event × Buffer = consume_event b in
    let rest = deliver is o.1 in (taken o.0 rest.0, rest.1)

-- The same on a queue: an event that comes when there are 15 is lost.
abbrev pub specified : List Interrupt → List Event → List Event × List Event
specified [] q = ([], q)
specified (key_event c ∷ is) q = specified is (if length q == 15 then q else q ++ event_of c ∷ [])
specified (clock_tick ∷ is) [] = specified is []
specified (clock_tick ∷ is) (e ∷ q) = let rest = specified is q in (e ∷ rest.0, rest.1)

abbrev Delivers : List Interrupt → List Event → List Event × Buffer → Type 0
Delivers is q r = (r.0 ≡ (specified is q).0) × (queue r.1 ≡ (specified is q).1) × IsBuffer r.1

clock_tick-Delivers :
    (is : List Interrupt) (b : Buffer) (o : Option Event × Buffer)
    → IsBuffer b
    → Took b o
    → ((b' : Buffer) → IsBuffer b' → Delivers is (queue b') (deliver is b'))
    → Delivers (clock_tick ∷ is) (queue b) (taken o.0 (deliver is o.1).0, (deliver is o.1).1)
clock_tick-Delivers is b (none, b') ok t later = let r = later b ok in rw (t.1, t.0) (rw t.0 at r)
clock_tick-Delivers is b (some e, b') ok t later =
    let r = later b' t.1 in rw t.0 (ap (λ es. e ∷ es) r.0, r.1, r.2)

-- The buffer is a queue of at most 15 events: whatever key events and clock interrupts come, the
-- consumer gets the events that a plain queue would give it, in the order in which they came, and
-- the buffer holds those that the queue holds; what comes while there are 15 in it is lost.
pub deliver-specified :
    (is : List Interrupt) (b : Buffer)
    → IsBuffer b
    → ((deliver is b).0 ≡ (specified is (queue b)).0)
      × (queue (deliver is b).1 ≡ (specified is (queue b)).1)
      × IsBuffer (deliver is b).1
unfolding deliver
deliver-specified [] b ok = (refl, refl, ok)
deliver-specified (key_event c ∷ is) b ok =
    let a = keyboard_routine-append c b ok in
    let r = deliver-specified is (keyboard_routine c b) a.0 in
    let q = ap (specified is) a.1 in (r.0 ∙ (λ i. (q i).0), r.1 ∙ (λ i. (q i).1), r.2)
deliver-specified (clock_tick ∷ is) b ok =
    clock_tick-Delivers is b (consume_event b) ok (consume_event-Took b ok) (deliver-specified is)
