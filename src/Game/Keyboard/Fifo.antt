-- ===== src/Game/Keyboard/Fifo.antt =====
-- so2_old/GAME/zeos/interrupt.c: the circular buffer as a queue of at most 15 events.
use fib_so.Prelude.{
  ℕ, zero, suc, ◌+◌, ◌-◌, ◌%◌, ◌<◌, ◌≡◌, ◌≢◌, ◌∙◌, ap, sym, refl, arith, ◌==◌, true, false,
  if◌then◌else◌, Option, none, some, List, [], ◌∷◌, ◌++◌, length, Bool-cases, inl, inr,
}
use fib_so.Game.Keyboard.{Event, Buffer, event_of, keyboard_routine, consume_event}

-- `n` events from position `p` on.
abbrev pub contents : (ℕ → Event) → ℕ → ℕ → List Event
contents events zero p = []
contents events (suc n) p = events p ∷ contents events n ((p + 1) % 16)

abbrev pub IsBuffer : Buffer → Type 0
IsBuffer b = (b.head < 16) × (b.tail < 16)

-- The events in the buffer, the oldest first.
abbrev pub size : Buffer → ℕ
size b = (b.head + 16 - b.tail) % 16

abbrev pub queue : Buffer → List Event
queue b = contents b.events (size b) b.tail

length-contents : (events : ℕ → Event) (n p : ℕ) → length (contents events n p) ≡ n
length-contents events zero p = refl
length-contents events (suc n) p = ap suc (length-contents events n ((p + 1) % 16))

contents-snoc :
    (e e' : ℕ → Event) (n p : ℕ)
    → p < 16
    → n < 16
    → ((i : ℕ) → i ≢ (p + n) % 16 → e' i ≡ e i)
    → contents e' (suc n) p ≡ contents e n p ++ e' ((p + n) % 16) ∷ []
contents-snoc e e' zero p hp hn same =
    let here : (p + 0) % 16 ≡ p = omega arith in ap (λ i. e' i ∷ []) (sym here)
contents-snoc e e' (suc n) p hp hn same =
    let next : ((p + 1) % 16 + n) % 16 ≡ (p + suc n) % 16 = omega arith in
    let first : e' p ≡ e p = same p (ground arith) in
    let rest =
      contents-snoc e e' n ((p + 1) % 16) (omega arith) (omega arith)
        (λ i ne. same i (ground (arith, ne))) in
    rw (first, rest, next)

-- A key event goes to the end of the queue; with 15 events in it it is dropped.
pub keyboard_routine-append :
    (c : ℕ) (b : Buffer)
    → IsBuffer b
    → IsBuffer (keyboard_routine c b)
      × (queue (keyboard_routine c b)
          ≡ (if length (queue b) == 15 then queue b else queue b ++ event_of c ∷ []))
unfolding keyboard_routine
keyboard_routine-append c b ok = elim (Bool-cases ((b.head + 1) % 16 == b.tail)) [
  | inl full ↦
      let filled : (length (queue b) == 15) ≡ true =
        ground (arith, length-contents b.events (size b) b.tail) in
      (rw full ok, rw (full, filled))
  | inr room ↦
      let some_room : (length (queue b) == 15) ≡ false =
        ground (arith, length-contents b.events (size b) b.tail) in
      let e' : ℕ → Event = λ i. if i == b.head then event_of c else b.events i in
      let place : (b.tail + size b) % 16 ≡ b.head = ground arith in
      let grown : ((b.head + 1) % 16 + 16 - b.tail) % 16 ≡ suc (size b) = ground arith in
      let own : (b.head == b.head) ≡ true = ground arith in
      (
        rw room (omega arith, ok.1),
        rw (room, some_room, grown)
            (contents-snoc b.events e' (size b) b.tail ok.1 (ground arith)
                (λ i ne. ground (arith, place))
              ∙ rw (place, own)),
      )
]

-- What the consumer makes of the buffer `b`: none when it is empty, which is left as it is, or the
-- first of its events.
abbrev pub Took : Buffer → Option Event × Buffer → Type 0
Took b (none, b') = (queue b ≡ []) × (b' ≡ b)
Took b (some e, b') = (queue b ≡ e ∷ queue b') × IsBuffer b'

-- The consumer takes the oldest event out of the queue and leaves the others in their order; it
-- finds none only when the queue is empty.
pub consume_event-Took : (b : Buffer) → IsBuffer b → Took b (consume_event b)
unfolding consume_event
consume_event-Took b ok = elim (Bool-cases (b.head == b.tail)) [
  | inl empty ↦ let none_in : size b ≡ 0 = ground arith in rw empty (rw none_in refl, refl)
  | inr more ↦
      let n : ℕ = size b - 1 in
      let count : size b ≡ suc n = ground arith in
      let later : (b.head + 16 - (b.tail + 1) % 16) % 16 ≡ n = ground arith in
      rw more (ap (λ k. contents b.events k b.tail) count ∙ rw later refl, (ok.0, omega arith))
]
