-- ===== src/Game/Ticks.antt =====
-- so2_old/GAME/zeos/utils.c: get_ticks, with the division of 64 bits by 32 that it is made of.
use native.Mathlib.Nat.{div-add-mod, mod-lt, mul-add-div, mul-add-mod_self_left}
use fib_so.Prelude.{
  ℕ, ◌+◌, ◌*◌, ◌/◌, ◌%◌, ◌^◌, ◌<◌, ◌≡◌, ◌∙◌, ap, sym, refl, true, ltb, ◌==◌, if◌then◌else◌, Option,
  none, some, arith, Bool-cases, inl, inr,
}

-- The instruction `divl`: `upper` and `low` together divided by `base`. It faults when `base` is 0
-- or the quotient does not fit into 32 bits.
abbrev divl : ℕ → ℕ → ℕ → Option (ℕ × ℕ)
divl upper low base =
    let n : ℕ = upper * 2 ^ 32 + low in if ltb upper base then some (n / base, n % base) else none

-- The new high word of the dividend, with the quotient of the low one.
abbrev joined : ℕ → Option (ℕ × ℕ) → Option (ℕ × ℕ)
joined high none = none
joined high (some (low, left)) = some (high * 2 ^ 32 + low, left)

-- The macro `do_div(n, base)`: what becomes of `n`, and its value.
pub do_div : ℕ → ℕ → Option (ℕ × ℕ)
do_div n base =
    let low : ℕ = n % 2 ^ 32 in
    let high : ℕ = n / 2 ^ 32 in
    if high == 0
    then joined 0 (divl 0 low base)
    else joined (high / base) (divl (high % base) low base)

abbrev cycles_per_tick : ℕ
cycles_per_tick = 109000

abbrev low_word : Option (ℕ × ℕ) → Option ℕ
low_word none = none
low_word (some (n, left)) = some (n % 2 ^ 32)

-- `eax` and `edx` are the words that rdtsc reads.
get_ticks : ℕ → ℕ → Option ℕ
get_ticks eax edx = low_word (do_div ((edx * 2 ^ 32 + eax) % 2 ^ 64) cycles_per_tick)

-- `n` is a multiple of `base` and what divl divides.
halves :
    (n base : ℕ)
    → base * ((n / 2 ^ 32) / base * 2 ^ 32) + ((n / 2 ^ 32) % base * 2 ^ 32 + n % 2 ^ 32) ≡ n
halves n base =
    let high : base * ((n / 2 ^ 32) / base) + (n / 2 ^ 32) % base ≡ n / 2 ^ 32 =
      div-add-mod (n / 2 ^ 32) base in
    omega arith

-- do_div divides: for a dividend of 64 bits and a base other than 0 neither division overflows, the
-- dividend becomes the quotient of all 64 bits, and the value is the remainder.
pub do_div-quotient :
    (n base : ℕ) → 0 < base → n < 2 ^ 64 → do_div n base ≡ some (n / base, n % base)
unfolding do_div
do_div-quotient n base positive word =
    let q : ℕ = (n / 2 ^ 32) / base * 2 ^ 32 in
    let y : ℕ = (n / 2 ^ 32) % base * 2 ^ 32 + n % 2 ^ 32 in
    let fits : ltb ((n / 2 ^ 32) % base) base ≡ true =
      (let b = mod-lt (n / 2 ^ 32) positive in ground arith) in
    let quotient : q + y / base ≡ n / base =
      sym (mul-add-div positive q y) ∙ ap (λ m. m / base) (halves n base) in
    let remainder : y % base ≡ n % base =
      sym (mul-add-mod_self_left base q y) ∙ ap (λ m. m % base) (halves n base) in
    elim (Bool-cases (n / 2 ^ 32 == 0)) [
      | inl small ↦
          let zero_high : n / 2 ^ 32 ≡ 0 = ground arith in
          let only : n % 2 ^ 32 ≡ n = omega arith in
          let starts : ltb 0 base ≡ true = ground arith in
          let sum : 0 * 2 ^ 32 + n ≡ n = omega arith in
          let whole : 0 * 2 ^ 32 + n / base ≡ n / base = omega arith in
          rw (small, starts, only, sum, whole) refl
      | inr large ↦ rw (large, fits, quotient, remainder) refl
    ]

-- The ticks are a word of 32 bits, the low one of the cycles divided.
get_ticks-word :
    (eax edx : ℕ)
    → eax < 2 ^ 32
    → edx < 2 ^ 32
    → (t : ℕ) × (get_ticks eax edx ≡ some t)
      × (t < 2 ^ 32)
      × (t ≡ (edx * 2 ^ 32 + eax) / cycles_per_tick % 2 ^ 32)
unfolding get_ticks
get_ticks-word eax edx low high =
    let n : ℕ = edx * 2 ^ 32 + eax in
    let same : n % 2 ^ 64 ≡ n = omega arith in
    (
      n / cycles_per_tick % 2 ^ 32,
      rw (same, do_div-quotient n cycles_per_tick (omega arith) (omega arith)) refl,
      omega arith,
      refl,
    )
