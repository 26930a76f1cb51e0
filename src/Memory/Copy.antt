-- ===== src/Memory/Copy.antt =====
-- zeos/utils.c: what copy_data, copy_from_user and copy_to_user do to memory.
use mathlib.Core.Path.{ap₂}
use fib_so.Prelude.{
  ℕ, zero, suc, ◌+◌, ◌-◌, ◌≤◌, ◌<◌, ◌≡◌, ◌⊎◌, refl, arith, ltb, leb, ◌&&◌, if◌then◌else◌, update,
  ◌++◌,
}
use fib_so.Prelude.Int.{pos}
use fib_so.Memory.{
  Mem, bytes, move_dword, copy_bytes, copy_dwords, copy_data, copy_from_user, copy_to_user,
}

-- Two areas of `n` bytes that do not overlap.
abbrev pub Apart : ℕ → ℕ → ℕ → Type 0
Apart p q n = (p + n ≤ q) ⊎ (q + n ≤ p)

-- The memory after `n` bytes at `p` have been copied to `q`.
abbrev pub copied : ℕ → ℕ → ℕ → Mem → Mem
copied p q n m a = if leb q a && ltb a (q + n) then m (p + (a - q)) else m a

copy_bytes-copied :
    (n p q : ℕ) (m : Mem) (a : ℕ) → Apart p q n → copy_bytes n p q m a ≡ copied p q n m a
unfolding copy_bytes
copy_bytes-copied zero p q m a apart = ground arith
copy_bytes-copied (suc n) p q m a apart =
    ground (arith, copy_bytes-copied n (p + 1) (q + 1) (update m q (m p)) a)

copy_dwords-copied :
    (k n p q : ℕ) (m : Mem) (a : ℕ) → Apart p q n → copy_dwords k p q n m a ≡ copied p q n m a
unfolding copy_dwords
copy_dwords-copied zero n p q m a apart = copy_bytes-copied n p q m a apart
copy_dwords-copied (suc k) n p q m a apart = ground (
  arith,
  copy_bytes-copied n p q m a apart,
  copy_dwords-copied k (n - 4) (p + 4) (q + 4) (move_dword p q m) a,
)

-- copy_data of `n` bytes between areas that do not overlap makes the destination equal to the
-- source as it was, and changes no other byte.
pub copy_data-copied :
    (start dest n : ℕ) (m : Mem) (a : ℕ)
    → Apart start dest n
    → copy_data start dest (pos n) m a
      ≡ (if leb dest a && ltb a (dest + n) then m (start + (a - dest)) else m a)
unfolding copy_data
copy_data-copied start dest n m a apart = copy_dwords-copied n n start dest m a apart

-- copy_from_user reports success and copies as copy_data does.
pub copy_from_user-copied :
    (start dest n : ℕ) (m : Mem)
    → Apart start dest n
    → ((copy_from_user start dest (pos n) m).0 ≡ pos 0)
      × ((a : ℕ) → (copy_from_user start dest (pos n) m).1 a ≡ copied start dest n m a)
unfolding copy_from_user
copy_from_user-copied start dest n m apart =
    (refl, λ a. copy_dwords-copied n n start dest m a apart)

copy_to_user-copied :
    (start dest n : ℕ) (m : Mem)
    → Apart start dest n
    → ((copy_to_user start dest (pos n) m).0 ≡ pos 0)
      × ((a : ℕ) → (copy_to_user start dest (pos n) m).1 a ≡ copied start dest n m a)
unfolding copy_to_user
copy_to_user-copied start dest n m apart = (refl, λ a. copy_dwords-copied n n start dest m a apart)

-- The bytes of two areas that agree.
pub bytes-eq :
    (n : ℕ) (m m' : Mem) (a b : ℕ)
    → ((i : ℕ) → i < n → m (a + i) ≡ m' (b + i))
    → bytes m a n ≡ bytes m' b n
bytes-eq zero m m' a b e = refl
bytes-eq (suc n) m m' a b e =
    let here : m a ≡ m' b = ground (arith, e 0) in
    rw (here, bytes-eq n m m' (a + 1) (b + 1) (λ i lt. ground (arith, e (i + 1))))

pub bytes-add : (i j : ℕ) (m : Mem) (a : ℕ) → bytes m a (i + j) ≡ bytes m a i ++ bytes m (a + i) j
bytes-add zero j m a = ap₂ (λ x y. bytes m x y) (omega arith) (omega arith)
bytes-add (suc i) j m a =
    let e : suc i + j ≡ suc (i + j) = omega arith in
    let f : a + 1 + i ≡ a + suc i = omega arith in rw (e, bytes-add i j m (a + 1), f)
