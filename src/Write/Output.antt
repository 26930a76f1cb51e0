-- ===== src/Write/Output.antt =====
-- zeos/sys.c: what sys_write returns, prints and changes.
use fib_so.Prelude.{
  ℕ, zero, suc, ◌+◌, ◌-◌, ◌≤◌, ◌<◌, ◌≡◌, ◌≢◌, ◌⊎◌, inl, inr, refl, ap, ◌∙◌, arith, ltb, leb, ◌&&◌,
  ◌==◌, if◌then◌else◌, Bool-cases, ==_iff, Option, some, List, [], ◌∷◌, ◌++◌, false,
}
use fib_so.Prelude.Int.{ℤ, pos, negsuc}
use fib_so.Memory.{Mem, bytes, copy_from_user, access_ok, verify_read}
use fib_so.Memory.Copy.{Apart, copy_from_user-copied, bytes-eq, bytes-add}
use fib_so.Console.{Screen, sys_write_console}
use fib_so.Console.Cursor.{print_all, print_from-print_all}
use fib_so.Write.{Machine, check_fd, ebadf, efault, einval, write_loop, sys_write}

-- `m` and `m'` differ at most in the `n` bytes from `a` on.
abbrev pub SameOutside : ℕ → ℕ → Mem → Mem → Type 0
SameOutside a n m m' = (b : ℕ) → (leb a b && ltb b (a + n)) ≡ false → m' b ≡ m b

pub print_all-append :
    (cs ds : List ℕ) (s : Screen) → print_all (cs ++ ds) s ≡ print_all ds (print_all cs s)
unfolding print_all
print_all-append [] ds s = refl
print_all-append (c ∷ cs) ds s = print_all-append cs ds _

-- sys_write_console prints the bytes of its buffer and returns their number.
pub sys_write_console-prints :
    (m : Mem) (a n : ℕ) (s : Screen)
    → sys_write_console m a (pos n) s ≡ (pos n, print_all (bytes m a n) s)
unfolding sys_write_console
sys_write_console-prints m a n s = ap (λ t. (pos n, t)) (print_from-print_all n m a s)

-- A chunk that goes through the kernel's buffer comes out as it stood in the user's.
pub chunk-bytes :
    (p q n : ℕ) (m : Mem) → Apart p q n → bytes (copy_from_user p q (pos n) m).1 q n ≡ bytes m p n
chunk-bytes p q n m apart =
    bytes-eq n (copy_from_user p q (pos n) m).1 m q p
      (λ i lt. ground (arith, (copy_from_user-copied p q n m apart).1 (q + i)))

abbrev chunk_size : ℕ → ℕ
chunk_size left = if ltb 256 left then 256 else left

-- One round of the loop.
write_step :
    (k kb buf left w : ℕ) (s : Machine)
    → left ≢ 0
    → Apart (buf + w) kb (chunk_size left)
    → write_loop (suc k) kb buf left w s
      ≡ write_loop k kb buf (left - chunk_size left) (w + chunk_size left) (record {
        mem = (copy_from_user (buf + w) kb (pos (chunk_size left)) s.mem).1;
        screen = print_all (bytes s.mem (buf + w) (chunk_size left)) s.screen;
      })
unfolding write_loop
write_step k kb buf left w s ne apart =
    let c : ℕ = chunk_size left in
    let m1 : Mem = (copy_from_user (buf + w) kb (pos c) s.mem).1 in
    let more : (left == 0) ≡ false = ground arith in
    let ok = (copy_from_user-copied (buf + w) kb c s.mem apart).0 in
    let out = sys_write_console-prints m1 kb c s.screen in
    let same = chunk-bytes (buf + w) kb c s.mem apart in rw (more, ok, out, same)

-- What the loop returns, prints and changes.
abbrev Prints : ℕ → ℕ → ℕ → ℕ → Machine → Option (ℤ × Machine) → Type 0
Prints kb buf left w s r =
    (m' : Mem) × (r
      ≡ some (
        pos (w + left),
        record { mem = m'; screen = print_all (bytes s.mem (buf + w) left) s.screen },
      ))
    × SameOutside kb 256 s.mem m'

write_loop-zero :
    (k kb buf w : ℕ) (s : Machine) → Prints kb buf 0 w s (write_loop (suc k) kb buf 0 w s)
unfolding write_loop print_all
write_loop-zero k kb buf w s = (s.mem, ap (λ n. some (pos n, s)) (omega arith), λ b h. refl)

-- The bytes of a buffer are those of its first chunk and those behind, which the copy of the first
-- chunk to the kernel's buffer leaves as they were.
bytes_split :
    (kb buf left w c : ℕ) (m : Mem)
    → c ≤ left
    → c ≤ 256
    → (kb + 256 ≤ buf + w) ⊎ (buf + w + left ≤ kb)
    → bytes m (buf + w) left
      ≡ bytes m (buf + w) c
        ++ bytes (copy_from_user (buf + w) kb (pos c) m).1 (buf + (w + c)) (left - c)
bytes_split kb buf left w c m le small apart =
    let whole : left ≡ c + (left - c) = omega arith in
    let copy = copy_from_user-copied (buf + w) kb c m (ground arith) in
    let behind =
      bytes-eq (left - c) m (copy_from_user (buf + w) kb (pos c) m).1 (buf + w + c) (buf + (w + c))
        (λ i lt. ground (arith, copy.1 (buf + (w + c) + i))) in
    ap (λ n. bytes m (buf + w) n) whole
    ∙ bytes-add c (left - c) m (buf + w)
    ∙ ap (λ t. bytes m (buf + w) c ++ t) behind

write_loop-Prints :
    (k kb buf left w : ℕ) (s : Machine)
    → left < k
    → (kb + 256 ≤ buf + w) ⊎ (buf + w + left ≤ kb)
    → Prints kb buf left w s (write_loop k kb buf left w s)
write_loop-Prints zero kb buf left w s lt apart = absurd (omega arith)
write_loop-Prints (suc k) kb buf left w s lt apart = elim (Bool-cases (left == 0)) [
  | inl done ↦ rw ((==_iff left 0).0 done) (write_loop-zero k kb buf w s)
  | inr more ↦
      let c : ℕ = chunk_size left in
      let here : Apart (buf + w) kb c = ground arith in
      let m1 : Mem = (copy_from_user (buf + w) kb (pos c) s.mem).1 in
      let first = bytes s.mem (buf + w) c in
      let s1 : Machine = record { mem = m1; screen = print_all first s.screen } in
      let rest = write_loop-Prints k kb buf (left - c) (w + c) s1 (ground arith) (ground arith) in
      let split = bytes_split kb buf left w c s.mem (ground arith) (ground arith) apart in
      let count : w + c + (left - c) ≡ w + left = ground arith in
      (
        rest.0,
        write_step k kb buf left w s (ground arith) here
            ∙ rest.1
            ∙ rw (split, print_all-append, count),
        λ b h. rest.2 b h ∙ ground (arith, (copy_from_user-copied (buf + w) kb c s.mem here).1 b),
      )
]

-- A write of `n` bytes to descriptor 1, from a buffer that access_ok accepts and that does not
-- overlap the kernel's own, returns `n`, prints exactly the bytes of the buffer in order, and
-- changes no memory but the kernel's buffer.
pub sys_write-prints :
    (kb buf n : ℕ) (s : Machine)
    → buf ≢ 0
    → access_ok verify_read buf n ≡ 1
    → (kb + 256 ≤ buf) ⊎ (buf + n ≤ kb)
    → (m' : Mem) × (sys_write kb (pos 1) buf (pos n) s
        ≡ some (pos n, record { mem = m'; screen = print_all (bytes s.mem buf n) s.screen }))
      × ((a : ℕ) → (leb kb a && ltb a (kb + 256)) ≡ false → m' a ≡ s.mem a)
unfolding sys_write check_fd
sys_write-prints kb buf n s ne ok apart =
    let base : buf + 0 ≡ buf = omega arith in
    let there : (buf == 0) ≡ false = ground arith in
    let count : 0 + n ≡ n = omega arith in
    let r : Prints kb buf n 0 s (write_loop (n + 1) kb buf n 0 s) =
      write_loop-Prints (n + 1) kb buf n 0 s (omega arith) (ground arith) in
    (r.0, rw (there, ok) (r.1 ∙ rw (base, count)), r.2)

-- The calls that are refused, with the error for each, in the order of the checks.
pub data Refused : ℤ → ℕ → ℤ → ℤ → Type 0 where
  bad_descriptor : (fd : ℤ) (buf : ℕ) (size : ℤ) → fd ≢ pos 1 → Refused fd buf size ebadf
  null_buffer : (size : ℤ) → Refused (pos 1) 0 size efault
  negative_size : (buf n : ℕ) → buf ≢ 0 → Refused (pos 1) buf (negsuc n) einval
  bad_range :
      (buf n : ℕ) → buf ≢ 0 → access_ok verify_read buf n ≡ 0 → Refused (pos 1) buf (pos n) efault

-- A refused call returns its error and changes neither memory nor screen: -EBADF for a descriptor
-- other than 1, else -EFAULT for a NULL buffer, else -EINVAL for a negative size, else -EFAULT for a
-- buffer that access_ok refuses.
pub sys_write-Refused :
    (kb : ℕ) (fd : ℤ) (buf : ℕ) (size error : ℤ) (s : Machine)
    → Refused fd buf size error
    → sys_write kb fd buf size s ≡ some (error, s)
unfolding sys_write check_fd
sys_write-Refused kb fd buf size error s (bad_descriptor _ _ _ ne) = ground arith
sys_write-Refused kb fd buf size error s (null_buffer _) = refl
sys_write-Refused kb fd buf size error s (negative_size _ n ne) = ground arith
sys_write-Refused kb fd buf size error s (bad_range _ n ne out) = ground arith
