-- ===== src/Libc.antt =====
-- zeos/libc.c: itoa and strlen, over the bytes of memory.
pub mod Digits
pub mod Errors
use fib_so.Prelude.{
  ℕ, zero, suc, ◌+◌, ◌-◌, ◌/◌, ◌%◌, ◌==◌, if◌then◌else◌, update, Option, none, some,
}
use fib_so.Prelude.Int.{ℤ, pos, negsuc}
use fib_so.Memory.{Mem}

-- `while (a > 0)`, from `i` on: the number of digits and the memory. The fuel is `a`, which the
-- division brings to 0 in at most as many rounds (`Digits`).
pub digits_from : ℕ → ℕ → ℕ → ℕ → Mem → ℕ × Mem
digits_from zero a i b m = (i, m)
digits_from (suc fuel) a i b m =
    let rest = digits_from fuel (a / 10) (i + 1) b (update m (b + i) (a % 10 + b'0')) in
    if a == 0 then (i, m) else rest

-- `for (i1 = i1; i1 < i/2; i1++)` with the rounds left.
pub swap_from : ℕ → ℕ → ℕ → ℕ → Mem → Mem
swap_from zero i1 i b m = m
swap_from (suc n) i1 i b m =
    let c : ℕ = m (b + i1) in
    let m1 : Mem = update m (b + i1) (m (b + (i - i1 - 1))) in
    swap_from n (i1 + 1) i b (update m1 (b + (i - i1 - 1)) c)

-- What itoa does with a number other than 0; a negative one has no digits.
pub itoa_digits : ℕ → ℕ → Mem → Mem
itoa_digits a b m =
    let r : ℕ × Mem = digits_from a a 0 b m in update (swap_from (r.0 / 2) 0 r.0 b r.1) (b + r.0) 0

pub itoa : ℤ → ℕ → Mem → Mem
itoa (pos zero) b m = update (update m b b'0') (b + 1) 0
itoa (pos (suc n)) b m = itoa_digits (suc n) b m
itoa (negsuc n) b m = itoa_digits 0 b m

-- `while (a[i] != 0) i++;` from `i` on. `none` when the fuel runs out.
pub strlen_from : ℕ → ℕ → ℕ → Mem → Option ℕ
strlen_from zero i a m = none
strlen_from (suc fuel) i a m =
    let rest = strlen_from fuel (i + 1) a m in if m (a + i) == 0 then some i else rest

pub strlen : ℕ → ℕ → Mem → Option ℕ
strlen fuel a m = strlen_from fuel 0 a m
