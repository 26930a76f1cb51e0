-- ===== src/Game/Calls/Search.antt =====
-- so2_old/GAME/zeos/sys.c: the process that sys_get_stats reports on.
use fib_so.Prelude.{
  ℕ, zero, suc, ◌+◌, ◌*◌, ◌≤◌, ◌<◌, ◌≡◌, refl, arith, ◌==◌, true, false, none, some, Bool-cases,
  inl, inr, ==_iff,
}
use fib_so.Prelude.Int.{ℤ, pos, negsuc, is_neg}
use fib_so.Memory.{verify_write}
use fib_so.Game.Kernel.{Layout, Kernel}
use fib_so.Game.Calls.{access_ok, esrch, eq_ℤ, find_pid, unsigned, report, sys_get_stats}

eq_ℤ-refl : (a : ℤ) → eq_ℤ a a ≡ true
eq_ℤ-refl (pos n) = ground arith
eq_ℤ-refl (negsuc n) = ground arith

find_pid-first :
    (n i j : ℕ) (l : Layout) (k : Kernel)
    → i ≤ j
    → j < i + n
    → ((m : ℕ)
        → i ≤ m
        → m < j
        → eq_ℤ (k.task (l.task + 4096 * m)).pid (k.task (l.task + 4096 * j)).pid ≡ false)
    → find_pid n i (k.task (l.task + 4096 * j)).pid l k ≡ some (l.task + 4096 * j)
unfolding find_pid
find_pid-first zero i j l k lo hi before = absurd (omega arith)
find_pid-first (suc n) i j l k lo hi before = elim (Bool-cases (i == j)) [
  | inl here ↦
      let same : i ≡ j = (==_iff i j).0 here in
      rw (same, eq_ℤ-refl (k.task (l.task + 4096 * j)).pid)
  | inr later ↦ rw (before i (omega arith) (ground arith)) (
      find_pid-first n (i + 1) j l k (ground arith) (omega arith)
        (λ m a b. before m (omega arith) b))
]

find_pid-none :
    (n i : ℕ) (pid : ℤ) (l : Layout) (k : Kernel)
    → ((m : ℕ) → i ≤ m → m < i + n → eq_ℤ (k.task (l.task + 4096 * m)).pid pid ≡ false)
    → find_pid n i pid l k ≡ none
unfolding find_pid
find_pid-none zero i pid l k other = refl
find_pid-none (suc n) i pid l k other =
    rw (other i (omega arith) (omega arith))
      (find_pid-none n (i + 1) pid l k (λ m a b. other m (omega arith) (omega arith)))

module _ (l : Layout) (st : ℕ) (k : Kernel) where
  -- sys_get_stats for the number of a process, which no structure before its own has, into a block
  -- that access_ok accepts, returns 0 and copies the statistics of that process, with what is left
  -- of the quantum of the running one.
  pub sys_get_stats-first :
      (j : ℕ)
      → j < 10
      → ((m : ℕ)
          → m < j
          → eq_ℤ (k.task (l.task + 4096 * m)).pid (k.task (l.task + 4096 * j)).pid ≡ false)
      → is_neg (k.task (l.task + 4096 * j)).pid ≡ false
      → access_ok verify_write st 28 ≡ 1
      → let r = sys_get_stats l (k.task (l.task + 4096 * j)).pid st k in
        (r.0 ≡ pos 0)
        × (r.1
            ≡ some (record ((k.task (l.task + 4096 * j)).p_stats) {
              remaining_ticks = unsigned k.remaining_quantum;
            }))
        × (r.2.links ≡ k.links)
  unfolding sys_get_stats report
  sys_get_stats-first j hi before natural ok =
      let f = find_pid-first 10 0 j l k (omega arith) (omega arith) (λ m a b. before m b) in
      (rw (ok, natural, f), rw (ok, natural, f), rw (ok, natural, f))

  -- Without a process of the number it returns -ESRCH and changes nothing.
  pub sys_get_stats-none :
      (pid : ℤ)
      → ((m : ℕ) → m < 10 → eq_ℤ (k.task (l.task + 4096 * m)).pid pid ≡ false)
      → is_neg pid ≡ false
      → access_ok verify_write st 28 ≡ 1
      → sys_get_stats l pid st k ≡ (esrch, none, k)
  unfolding sys_get_stats report
  sys_get_stats-none pid other natural ok =
      rw (ok, natural, find_pid-none 10 0 pid l k (λ m a b. other m b))
