-- ===== src/Prelude/Lists.antt =====
-- Lists measured by native numbers, membership as a test, and partial functions in sequence.
use Prim.Native.Nat.{ℕ, zero, suc, ◌+◌, ◌<◌}
use mathlib.Core.Path.{◌≡◌, refl, ap}
use mathlib.Core.Bool.{Bool, true, false, ◌||◌, or_assoc}
use mathlib.Core.Option.{Option, none, some}
use mathlib.Core.List.{List, [], ◌∷◌, ◌++◌}
use native.Mathlib.Omega.{arith}
use mathlib.Core.Logic.{◌⊎◌, inl, inr}
use fib_so.Prelude.Tests.{◌==◌, if◌then◌else◌, Bool-cases}

module _ {ℓ} {A : Type ℓ} where
  abbrev pub length : List A → ℕ
  length [] = 0
  length (x ∷ xs) = suc (length xs)

  pub length-append : (xs ys : List A) → length (xs ++ ys) ≡ length xs + length ys
  length-append [] ys = omega arith
  length-append (x ∷ xs) ys = omega (arith, length-append xs ys)

module _ {ℓ} {A : Type ℓ} where
  abbrev pub get_or : List A → ℕ → A → A
  get_or [] i d = d
  get_or (x ∷ xs) zero d = x
  get_or (x ∷ xs) (suc i) d = get_or xs i d

abbrev pub has : ℕ → List ℕ → Bool
has a [] = false
has a (x ∷ xs) = (a == x) || has a xs

pub has-append : (a : ℕ) (xs ys : List ℕ) → has a (xs ++ ys) ≡ (has a xs || has a ys)
has-append a [] ys = refl
has-append a (x ∷ xs) ys = rw (has-append a xs ys, or_assoc)

pub has-snoc : (a e : ℕ) (xs : List ℕ) → has a (xs ++ e ∷ []) ≡ true → (has a xs ≡ true) ⊎ (a ≡ e)
has-snoc a e xs i = elim (Bool-cases (has a xs)) [
  | inl i ↦ inl i
  | inr out ↦ inr (ground (arith, has-append a xs (e ∷ [])))
]

-- No entry twice.
abbrev pub AllDistinct : List ℕ → Type 0
AllDistinct [] = Unit
AllDistinct (x ∷ xs) = (has x xs ≡ false) × AllDistinct xs

pub AllDistinct-snoc :
    (n : ℕ) (xs : List ℕ) → AllDistinct xs → has n xs ≡ false → AllDistinct (xs ++ n ∷ [])
AllDistinct-snoc n [] d out = (refl, tt)
AllDistinct-snoc n (x ∷ xs) d out =
    (ground (arith, has-append x xs (n ∷ [])), AllDistinct-snoc n xs d.1 (ground arith))

-- A function of numbers changed at one place.
abbrev pub update {ℓ} : {A : Type ℓ} → (ℕ → A) → ℕ → A → ℕ → A
update f p v q = if q == p then v else f q

infixl 5 ◌>>=◌
abbrev pub ◌>>=◌ {ℓ κ} : {A : Type ℓ} {B : Type κ} → Option A → (A → Option B) → Option B
none >>= f = none
some a >>= f = f a

pub has-get_or : (xs : List ℕ) (i : ℕ) → i < length xs → has (get_or xs i 0) xs ≡ true
has-get_or [] i h = elim h [ ]
has-get_or (x ∷ xs) zero h = ground arith
has-get_or (x ∷ xs) (suc i) h = ground (arith, has-get_or xs i (omega arith))

pub get_or-injective :
    (xs : List ℕ) (i j : ℕ)
    → AllDistinct xs
    → i < length xs
    → j < length xs
    → get_or xs i 0 ≡ get_or xs j 0
    → i ≡ j
get_or-injective [] i j d hi hj e = elim hi [ ]
get_or-injective (x ∷ xs) zero zero d hi hj e = refl
get_or-injective (x ∷ xs) zero (suc j) d hi hj e = ground (arith, has-get_or xs j (omega arith))
get_or-injective (x ∷ xs) (suc i) zero d hi hj e = ground (arith, has-get_or xs i (omega arith))
get_or-injective (x ∷ xs) (suc i) (suc j) d hi hj e =
    ap suc (get_or-injective xs i j d.1 (omega arith) (omega arith) e)
