-- ===== src/Memory/Access.antt =====
-- zeos/utils.c: which blocks access_ok lets through.
use fib_so.Prelude.{ℕ, ◌+◌, ◌^◌, ◌≤◌, ◌<◌, ◌≡◌, ◌↔◌, arith}
use fib_so.Memory.{access_ok, verify_read, verify_write}

-- For blocks of less than 2 ^ 31 bytes, whatever the type of access: access_ok accepts a block
-- exactly when it starts at or behind 0x400000 and the byte after it lies below 0x41d000.
pub access_ok-range :
    (type addr size : ℕ)
    → addr < 2 ^ 32
    → size < 2 ^ 31
    → (access_ok type addr size ≡ 1) ↔ ((0x400000 ≤ addr) × (addr + size < 0x41d000))
unfolding access_ok
access_ok-range type addr size ha hs = (λ e. ground arith, λ e. ground arith)

-- The type of the access makes no difference: the check for writes falls through to the check for
-- reads, which accepts more.
access_ok-type :
    (addr size : ℕ) → access_ok verify_write addr size ≡ access_ok verify_read addr size
unfolding access_ok
access_ok-type addr size = ground arith

-- Accepted blocks can reach past the user's pages, which end at 0x41c000: from any address of the
-- user's pages on, a block that ends in the page behind them is accepted.
access_ok-past_end :
    (type addr size : ℕ)
    → 0x400000 ≤ addr
    → addr < 0x41c000
    → 0x41c000 < addr + size
    → addr + size < 0x41d000
    → access_ok type addr size ≡ 1
unfolding access_ok
access_ok-past_end type addr size lo hi past stop = ground arith
