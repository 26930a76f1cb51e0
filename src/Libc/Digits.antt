-- ===== src/Libc/Digits.antt =====
-- zeos/libc.c: the string that itoa writes is the number in decimal, and strlen measures it.
use fib_so.Prelude.{
  ℕ, zero, suc, ◌+◌, ◌-◌, ◌*◌, ◌/◌, ◌%◌, ◌≤◌, ◌<◌, ◌≡◌, ◌∙◌, ap, refl, arith, ◌==◌, ltb, leb, ◌&&◌,
  true, false, if◌then◌else◌, update, List, [], ◌∷◌, ◌++◌, Bool-cases, inl, inr, ==_iff, some,
}
use fib_so.Prelude.Int.{pos}
use fib_so.Memory.{Mem, bytes}
use fib_so.Memory.Copy.{bytes-add}
use fib_so.Libc.{digits_from, swap_from, itoa_digits, itoa, strlen_from, strlen}

-- The number that decimal digits stand for, the first digit the most significant.
abbrev pub dec_value : ℕ → List ℕ → ℕ
dec_value acc [] = acc
dec_value acc (c ∷ cs) = dec_value (10 * acc + (c - b'0')) cs

dec_value-snoc :
    (acc : ℕ) (cs : List ℕ) (c : ℕ)
    → dec_value acc (cs ++ c ∷ []) ≡ 10 * dec_value acc cs + (c - b'0')
dec_value-snoc acc [] c = refl
dec_value-snoc acc (d ∷ cs) c = dec_value-snoc (10 * acc + (d - b'0')) cs c

-- The `n` bytes from `a` on, the last in front.
abbrev back : Mem → ℕ → ℕ → List ℕ
back m a zero = []
back m a (suc n) = back m (a + 1) n ++ m a ∷ []

bytes-back :
    (n : ℕ) (m m' : Mem) (a a' : ℕ)
    → ((x : ℕ) → x < n → m (a + x) ≡ m' (a' + (n - 1 - x)))
    → bytes m a n ≡ back m' a' n
bytes-back zero m m' a a' e = refl
bytes-back (suc n) m m' a a' e =
    let count : suc n ≡ n + 1 = omega arith in
    let front = bytes-back n m m' a (a' + 1) (λ x lt. e x (omega arith) ∙ ap m' (omega arith)) in
    let last : m (a + n) ≡ m' a' = e n (omega arith) ∙ ap m' (omega arith) in
    ap (λ k. bytes m a k) count ∙ bytes-add n 1 m a ∙ rw (front, last)

-- The byte is a decimal digit.
abbrev pub IsDigit : ℕ → Type 0
IsDigit c = (b'0' ≤ c) × (c ≤ b'9')

-- `n` digits of `a` from `b + i` on, the least significant in front.
record Written (a i b : ℕ) (m : Mem) (n : ℕ) (m' : Mem) : Type 0 where
  value : dec_value 0 (back m' (b + i) n) ≡ a
  digits : (x : ℕ) → x < n → IsDigit (m' (b + i + x))
  others : (p : ℕ) → (leb (b + i) p && ltb p (b + i + n)) ≡ false → m' p ≡ m p

digits_from-Written :
    (fuel a i b : ℕ) (m : Mem)
    → a ≤ fuel
    → (n : ℕ) × (m' : Mem) × (digits_from fuel a i b m ≡ (i + n, m')) × Written a i b m n m'
unfolding digits_from
digits_from-Written zero a i b m le = (
  0,
  m,
  ap (λ j. (j, m)) (omega arith),
  record { value = omega arith; digits = λ x h. absurd (omega arith); others = λ p out. refl },
)
digits_from-Written (suc fuel) a i b m le = elim (Bool-cases (a == 0)) [
  | inl none_left ↦ (
    0,
    m,
    rw none_left (ap (λ j. (j, m)) (omega arith)),
    record { value = ground arith; digits = λ x h. absurd (omega arith); others = λ p out. refl },
  )
  | inr more ↦
      let m1 : Mem = update m (b + i) (a % 10 + b'0') in
      let r = digits_from-Written fuel (a / 10) (i + 1) b m1 (ground arith) in
      let first : r.1 (b + i) ≡ a % 10 + b'0' = r.3.others (b + i) (ground arith) ∙ ground arith in
      let start : b + i + 1 ≡ b + (i + 1) = omega arith in
      (
        suc r.0,
        r.1,
        rw more (r.2 ∙ ap (λ j. (j, r.1)) (omega arith)),
        record {
          value =
              dec_value-snoc 0 (back r.1 (b + i + 1) r.0) (r.1 (b + i))
              ∙ rw start (ground (arith, first, r.3.value));
          digits = λ x h. elim (Bool-cases (x == 0)) [
            | inl here ↦ ground (arith, first)
            | inr later ↦ ground (arith, r.3.digits (x - 1))
          ];
          others = λ p out. r.3.others p (ground arith) ∙ ground arith;
        },
      )
]

swap_from-mirror :
    (n i1 i b : ℕ) (m : Mem) (x : ℕ)
    → i1 + n ≡ i / 2
    → swap_from n i1 i b m (b + x)
      ≡ (if leb i1 x && ltb (x + i1) i then m (b + (i - 1 - x)) else m (b + x))
unfolding swap_from
swap_from-mirror zero i1 i b m x e = ground arith
swap_from-mirror (suc n) i1 i b m x e =
    let m2 : Mem =
      update (update m (b + i1) (m (b + (i - i1 - 1)))) (b + (i - i1 - 1)) (m (b + i1)) in
    swap_from-mirror n (i1 + 1) i b m2 x (omega arith) ∙ ground arith

swap_from-keeps :
    (n i1 i b : ℕ) (m : Mem) (p : ℕ)
    → i1 + n ≡ i / 2
    → (leb b p && ltb p (b + i)) ≡ false
    → swap_from n i1 i b m p ≡ m p
unfolding swap_from
swap_from-keeps zero i1 i b m p e out = refl
swap_from-keeps (suc n) i1 i b m p e out =
    swap_from-keeps n (i1 + 1) i b _ p (omega arith) out ∙ ground arith

-- The string for `a` at `b`: `n` digits and a 0, and no other byte has changed.
pub record Printed (a b : ℕ) (m : Mem) (n : ℕ) (m' : Mem) : Type 0 where
  pub value : dec_value 0 (bytes m' b n) ≡ a
  pub digits : (x : ℕ) → x < n → IsDigit (m' (b + x))
  pub end : m' (b + n) ≡ 0
  pub others : (p : ℕ) → (leb b p && ltb p (b + n + 1)) ≡ false → m' p ≡ m p

itoa_digits-Printed : (a b : ℕ) (m : Mem) → (n : ℕ) × Printed a b m n (itoa_digits a b m)
unfolding itoa_digits
itoa_digits-Printed a b m =
    let w = digits_from-Written a a 0 b m (omega arith) in
    let n : ℕ = w.0 in
    let m1 : Mem = w.1 in
    let m2 : Mem = swap_from (n / 2) 0 n b m1 in
    let m3 : Mem = update m2 (b + n) 0 in
    let mirror : (x : ℕ) → x < n → m3 (b + x) ≡ m1 (b + 0 + (n - 1 - x)) =
      λ x h. ground arith ∙ swap_from-mirror (n / 2) 0 n b m1 x (omega arith) ∙ ground arith in
    let got : digits_from a a 0 b m ≡ (n, m1) = w.2 ∙ ap (λ j. (j, m1)) (omega arith) in
    (
      n,
      rw got record {
        value = ap (dec_value 0) (bytes-back n m3 m1 b (b + 0) mirror) ∙ w.3.value;
        digits = λ x h. rw (mirror x h) (w.3.digits (n - 1 - x) (omega arith));
        end = ground arith;
        others = λ p out.
            ground arith
            ∙ swap_from-keeps (n / 2) 0 n b m1 p (omega arith) (ground arith)
            ∙ w.3.others p (ground arith);
      },
    )

Printed-positive : (n a b : ℕ) (m m' : Mem) → Printed (suc a) b m n m' → 0 < n
Printed-positive zero a b m m' p = absurd (omega (arith, p.value))
Printed-positive (suc n) a b m m' p = omega arith

strlen_from-digits :
    (fuel i n a : ℕ) (m : Mem)
    → ((x : ℕ) → x < n → IsDigit (m (a + x)))
    → m (a + n) ≡ 0
    → i ≤ n
    → n < i + fuel
    → strlen_from fuel i a m ≡ some n
unfolding strlen_from
strlen_from-digits zero i n a m digits end le lt = absurd (omega arith)
strlen_from-digits (suc fuel) i n a m digits end le lt = elim (Bool-cases (i == n)) [
  | inl here ↦
      let same : i ≡ n = (==_iff i n).0 here in
      let stop : (m (a + i) == 0) ≡ true = rw same (ground (arith, end)) in rw stop (ap some same)
  | inr before ↦
      let go : (m (a + i) == 0) ≡ false = ground (arith, digits i) in
      rw go (strlen_from-digits fuel (i + 1) n a m digits end (ground arith) (omega arith))
]

-- itoa of a number that is not negative writes a string of decimal digits that stands for it, with a
-- 0 behind, and changes no other byte; strlen then returns the number of these digits.
pub itoa-Printed :
    (a b : ℕ) (m : Mem)
    → (n : ℕ) × (0 < n)
      × Printed a b m n (itoa (pos a) b m)
      × ((fuel : ℕ) → n < fuel → strlen fuel b (itoa (pos a) b m) ≡ some n)
unfolding itoa strlen
itoa-Printed zero b m =
    let p : Printed 0 b m 1 (update (update m b b'0') (b + 1) 0) = record {
      value = ground arith;
      digits = λ x h. ground arith;
      end = ground arith;
      others = λ p out. ground arith;
    } in
    (
      1,
      omega arith,
      p,
      λ fuel h. strlen_from-digits fuel 0 1 b _ p.digits p.end (omega arith) (omega arith),
    )
itoa-Printed (suc a) b m =
    let r = itoa_digits-Printed (suc a) b m in
    (
      r.0,
      Printed-positive r.0 a b m (itoa_digits (suc a) b m) r.1,
      r.1,
      λ fuel h. strlen_from-digits fuel 0 r.0 b _ r.1.digits r.1.end (omega arith) (omega arith),
    )
