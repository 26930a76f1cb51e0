-- ===== src/Phase2/Interrupt/Hex.antt =====
-- so2_old/E1_E2/zeos/interrupt.c: the number that hex_convertor writes.
use fib_so.Prelude.{
  ℕ, zero, suc, ◌+◌, ◌-◌, ◌*◌, ◌/◌, ◌%◌, ◌^◌, ◌<◌, ◌≡◌, ◌∙◌, ap, refl, arith, ltb, leb, ◌&&◌, false,
  if◌then◌else◌, update, List, [], ◌∷◌, ◌++◌,
}
use fib_so.Memory.{Mem, bytes}
use fib_so.Memory.Copy.{bytes-add}
use fib_so.Phase2.Interrupt.{hex_from, hex_convertor}

-- The number that hexadecimal digits stand for, the first digit the most significant.
abbrev pub hex_digit : ℕ → ℕ
hex_digit c = if ltb c b'A' then c - b'0' else c - b'A' + 10

abbrev pub hex_value : ℕ → List ℕ → ℕ
hex_value acc [] = acc
hex_value acc (c ∷ cs) = hex_value (16 * acc + hex_digit c) cs

abbrev pow16 : ℕ → ℕ
pow16 zero = 1
pow16 (suc i) = 16 * pow16 i

hex_value-snoc :
    (acc : ℕ) (cs : List ℕ) (c : ℕ)
    → hex_value acc (cs ++ c ∷ []) ≡ 16 * hex_value acc cs + hex_digit c
hex_value-snoc acc [] c = refl
hex_value-snoc acc (d ∷ cs) c = hex_value-snoc (16 * acc + hex_digit d) cs c

hex_from-keeps :
    (i address s : ℕ) (m : Mem) (a : ℕ)
    → (leb s a && ltb a (s + i)) ≡ false
    → hex_from i address s m a ≡ m a
unfolding hex_from
hex_from-keeps zero address s m a out = refl
hex_from-keeps (suc i) address s m a out =
    hex_from-keeps i (address / 16) s _ a (ground arith) ∙ ground arith

hex_from-value :
    (i address s : ℕ) (m : Mem)
    → address < pow16 i
    → hex_value 0 (bytes (hex_from i address s m) s i) ≡ address
unfolding hex_from
hex_from-value zero address s m h = omega arith
hex_from-value (suc i) address s m h =
    let digit : ℕ = address % 16 in
    let c : ℕ = if ltb digit 10 then b'0' + digit else b'A' + digit - 10 in
    let m1 : Mem = update m (s + i) c in
    let m' : Mem = hex_from i (address / 16) s m1 in
    let count : suc i ≡ i + 1 = omega arith in
    let last : m' (s + i) ≡ c =
      hex_from-keeps i (address / 16) s m1 (s + i) (ground arith) ∙ ground arith in
    let rest = hex_from-value i (address / 16) s m1 (omega arith) in
    ap (λ n. hex_value 0 (bytes m' s n)) count
    ∙ ap (hex_value 0) (bytes-add i 1 m' s)
    ∙ hex_value-snoc 0 (bytes m' s i) (m' (s + i))
    ∙ ground (arith, last, rest)

-- hex_convertor writes 8 hexadecimal digits that stand for its number, and a 0 behind them; it
-- changes no other byte.
hex_convertor-value :
    (address s : ℕ) (m : Mem)
    → address < 2 ^ 32
    → (hex_value 0 (bytes (hex_convertor address s m) s 8) ≡ address)
      × (hex_convertor address s m (s + 8) ≡ 0)
      × ((a : ℕ) → (leb s a && ltb a (s + 9)) ≡ false → hex_convertor address s m a ≡ m a)
unfolding hex_convertor
hex_convertor-value address s m h =
    let m1 : Mem = update m (s + 8) 0 in
    (
      hex_from-value 8 address s m1 (omega arith),
      hex_from-keeps 8 address s m1 (s + 8) (ground arith) ∙ ground arith,
      λ a out. hex_from-keeps 8 address s m1 a (ground arith) ∙ ground arith,
    )
