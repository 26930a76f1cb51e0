-- ===== src/Libc/Errors.antt =====
-- zeos/libc.c: perror. The blocks that it hands to write, with descriptor 1, are its result; write
-- itself is in assembly.
use fib_so.Prelude.{
  ℕ, zero, suc, ◌+◌, ◌<◌, ◌≡◌, ◌≢◌, ◌∙◌, ap, refl, arith, true, false, ◌==◌, ◌||◌, if◌then◌else◌,
  Bool-cases, inl, inr, Option, none, some, List, [], ◌∷◌, ◌++◌,
}
use fib_so.Prelude.Int.{ℤ, pos, negsuc}
use fib_so.Memory.{Mem, bytes}
use fib_so.Libc.{strlen_from, strlen}

-- "Bad file number", "Permission denied", "Bad address", "Invalid argument", "Function not
-- implemented" and "Unknown error"
abbrev bad_file : List ℕ
bad_file =
    b'B' ∷ b'a' ∷ b'd' ∷ b' ' ∷ b'f' ∷ b'i' ∷ b'l' ∷ b'e' ∷ b' ' ∷ b'n' ∷ b'u' ∷ b'm' ∷ b'b' ∷ b'e'
    ∷ b'r' ∷ []

abbrev denied : List ℕ
denied =
    b'P' ∷ b'e' ∷ b'r' ∷ b'm' ∷ b'i' ∷ b's' ∷ b's' ∷ b'i' ∷ b'o' ∷ b'n' ∷ b' ' ∷ b'd' ∷ b'e' ∷ b'n'
    ∷ b'i' ∷ b'e' ∷ b'd' ∷ []

abbrev bad_address : List ℕ
bad_address = b'B' ∷ b'a' ∷ b'd' ∷ b' ' ∷ b'a' ∷ b'd' ∷ b'd' ∷ b'r' ∷ b'e' ∷ b's' ∷ b's' ∷ []

abbrev invalid : List ℕ
invalid =
    b'I' ∷ b'n' ∷ b'v' ∷ b'a' ∷ b'l' ∷ b'i' ∷ b'd' ∷ b' ' ∷ b'a' ∷ b'r' ∷ b'g' ∷ b'u' ∷ b'm' ∷ b'e'
    ∷ b'n' ∷ b't' ∷ []

abbrev no_call : List ℕ
no_call =
    b'F' ∷ b'u' ∷ b'n' ∷ b'c' ∷ b't' ∷ b'i' ∷ b'o' ∷ b'n' ∷ b' ' ∷ b'n' ∷ b'o' ∷ b't' ∷ b' ' ∷ b'i'
    ∷ b'm' ∷ b'p' ∷ b'l' ∷ b'e' ∷ b'm' ∷ b'e' ∷ b'n' ∷ b't' ∷ b'e' ∷ b'd' ∷ []

abbrev unknown : List ℕ
unknown =
    b'U' ∷ b'n' ∷ b'k' ∷ b'n' ∷ b'o' ∷ b'w' ∷ b'n' ∷ b' ' ∷ b'e' ∷ b'r' ∷ b'r' ∷ b'o' ∷ b'r' ∷ []

-- The switch on errno. A literal's bytes before its 0 are what strlen counts.
abbrev pub message : ℤ → List ℕ
message (pos n) =
    if n == 9
    then bad_file
    else if n == 13
    then denied
    else if n == 14
    then bad_address
    else if n == 22
    then invalid
    else if n == 38
    then no_call
    else unknown
message (negsuc n) = unknown

-- ": "
abbrev pub colon : List ℕ
colon = b':' ∷ b' ' ∷ []

abbrev pub newline : List ℕ
newline = 10 ∷ []

-- The block of a string of the given length, and the colon.
abbrev before : ℕ → Mem → Option ℕ → Option (List (List ℕ))
before s m none = none
before s m (some n) = some (bytes m s n ∷ colon ∷ [])

abbrev followed : ℤ → Option (List (List ℕ)) → Option (List (List ℕ))
followed errno none = none
followed errno (some blocks) = some (blocks ++ message errno ∷ newline ∷ [])

-- `none` when the fuel of strlen runs out.
pub perror : ℕ → ℤ → ℕ → Mem → Option (List (List ℕ))
perror fuel errno s m =
    followed errno (if (s == 0) || (m s == 0) then some [] else before s m (strlen fuel s m))

-- A string of `n` bytes at `s`.
pub record IsString (m : Mem) (s n : ℕ) : Type 0 where
  pub inside : (i : ℕ) → i < n → m (s + i) ≢ 0
  pub closed : m (s + n) ≡ 0

strlen_from-length :
    (fuel k i s : ℕ) (m : Mem)
    → IsString m s (i + k)
    → k < fuel
    → strlen_from fuel i s m ≡ some (i + k)
unfolding strlen_from
strlen_from-length zero k i s m str lt = absurd (omega arith)
strlen_from-length (suc fuel) zero i s m str lt =
    let at : s + (i + 0) ≡ s + i = omega arith in
    let here : (m (s + i) == 0) ≡ true = ground (arith, str.closed, at) in
    let len : i ≡ i + 0 = omega arith in rw here (ap some len)
strlen_from-length (suc fuel) (suc k) i s m str lt =
    let more : (m (s + i) == 0) ≡ false = ground (arith, str.inside i) in
    let count : i + 1 + k ≡ i + suc k = omega arith in
    let rest : IsString m s (i + 1 + k) = rw count str in
    rw more (strlen_from-length fuel k (i + 1) s m rest (omega arith) ∙ ap some count)

-- perror writes one line: the string, a colon and a blank, unless the pointer is NULL or the string
-- is empty; then the message that belongs to errno, and the end of the line. The fuel is more than
-- the length of the string.
pub perror-line :
    (fuel n s : ℕ) (errno : ℤ) (m : Mem)
    → IsString m s n
    → n < fuel
    → perror fuel errno s m
      ≡ some (
          (if (s == 0) || (n == 0) then [] else bytes m s n ∷ colon ∷ [])
          ++ message errno ∷ newline ∷ [])
unfolding perror strlen
perror-line fuel zero s errno m str lt =
    let at : s + 0 ≡ s = omega arith in
    let empty : (m s == 0) ≡ true = ground (arith, str.closed, at) in
    elim (Bool-cases (s == 0)) [ inl null ↦ rw null refl | inr there ↦ rw (there, empty) refl ]
perror-line fuel (suc n) s errno m str lt =
    let at : s + 0 ≡ s = omega arith in
    let some_byte : (m s == 0) ≡ false = ground (arith, str.inside 0, at) in
    let nonempty : (suc n == 0) ≡ false = ground arith in
    let sum : 0 + suc n ≡ suc n = omega arith in
    let whole : IsString m s (0 + suc n) = rw sum str in
    let len : strlen_from fuel 0 s m ≡ some (suc n) =
      strlen_from-length fuel (suc n) 0 s m whole lt ∙ ap some sum in
    elim (Bool-cases (s == 0)) [
      | inl null ↦ rw null refl
      | inr there ↦ rw (there, some_byte, len, nonempty) refl
    ]
