-- ===== src/Paging/Entry.antt =====
-- so2_old/E1_E2/zeos/include/types.h: the `page_table_entry` union. An entry is its 32-bit word;
-- a bit field keeps the low bits of what is assigned to it.
use fib_so.Prelude.{ℕ, ◌+◌, ◌-◌, ◌*◌, ◌/◌, ◌%◌, ◌^◌, ◌≡◌, arith}

abbrev pub present : ℕ → ℕ
present e = e % 2

abbrev pub rw_bit : ℕ → ℕ
rw_bit e = e / 2 % 2

abbrev pub user_bit : ℕ → ℕ
user_bit e = e / 4 % 2

abbrev pub pbase_addr : ℕ → ℕ
pbase_addr e = e / 4096 % 2 ^ 20

unfoldable pub set_present : ℕ → ℕ → ℕ
set_present e v = e - present e + v % 2

unfoldable pub set_rw : ℕ → ℕ → ℕ
set_rw e v = e - rw_bit e * 2 + v % 2 * 2

unfoldable pub set_user : ℕ → ℕ → ℕ
set_user e v = e - user_bit e * 4 + v % 2 * 4

unfoldable pub set_pbase_addr : ℕ → ℕ → ℕ
set_pbase_addr e v = e - pbase_addr e * 4096 + v % 2 ^ 20 * 4096

-- The word that an entry cleared and then filled in as the kernel does has.
pub mapped_entry :
    (f : ℕ) → set_present (set_rw (set_user (set_pbase_addr 0 f) 1) 1) 1 ≡ f % 2 ^ 20 * 4096 + 7
unfolding set_present set_rw set_user set_pbase_addr
mapped_entry f = omega arith

pub read_only_entry :
    (f : ℕ) → set_present (set_user (set_pbase_addr 0 f) 1) 1 ≡ f % 2 ^ 20 * 4096 + 5
unfolding set_present set_user set_pbase_addr
read_only_entry f = omega arith

pub kernel_entry : (f : ℕ) → set_present (set_rw (set_pbase_addr 0 f) 1) 1 ≡ f % 2 ^ 20 * 4096 + 3
unfolding set_present set_rw set_pbase_addr
kernel_entry f = omega arith
