-- ===== src/Game/Calls/Output.antt =====
-- so2_old/GAME/zeos/sys.c: what sys_write returns and prints.
use fib_so.Prelude.{
  ℕ, zero, suc, ◌+◌, ◌-◌, ◌≤◌, ◌<◌, ◌≡◌, ◌⊎◌, inl, inr, refl, ap, sym, ◌∙◌, arith, true, false, ltb,
  Bool-cases, some, ◌++◌,
}
use fib_so.Prelude.Int.{pos}
use fib_so.Memory.{Mem, bytes, copy_from_user, verify_read}
use fib_so.Memory.Copy.{Apart, copy_from_user-copied, bytes-eq, bytes-add}
use fib_so.Console.Cursor.{print_all}
use fib_so.Write.{Machine, check_fd}
use fib_so.Write.Output.{print_all-append, sys_write_console-prints, chunk-bytes}
use fib_so.Game.Calls.{access_ok, write_last, write_loop, write_checked, sys_write}

-- No byte is left, and the `left` bytes at `buf` have been printed.
abbrev Prints : ℕ → ℕ → Machine → ℕ × Machine → Type 0
Prints buf left s r = (r.0 ≡ 0) × (r.1.screen ≡ print_all (bytes s.mem buf left) s.screen)

abbrev pub Clear : ℕ → ℕ → ℕ → Type 0
Clear loc buf left = (loc + 512 ≤ buf) ⊎ (buf + left ≤ loc)

write_last-Prints :
    (loc buf left : ℕ) (s : Machine)
    → left ≤ 512
    → Clear loc buf left
    → Prints buf left s (write_last loc buf left s)
unfolding write_last print_all
write_last-Prints loc buf zero s le clear = (refl, refl)
write_last-Prints loc buf (suc left) s le clear =
    let n : ℕ = suc left in
    let apart : Apart buf loc n = ground arith in
    let m1 : Mem = (copy_from_user buf loc (pos n) s.mem).1 in
    let out = sys_write_console-prints m1 loc n s.screen in
    let same = chunk-bytes buf loc n s.mem apart in
    let some_left : ltb 0 n ≡ true = ground arith in
    let gone : n - n ≡ 0 = omega arith in (rw (some_left, out, gone), rw (some_left, out, same))

write_step :
    (k loc buf left : ℕ) (s : Machine)
    → 512 < left
    → Apart buf loc 512
    → write_loop (suc k) loc buf left s
      ≡ write_loop k loc (buf + 512) (left - 512) (record {
        mem = (copy_from_user buf loc (pos 512) s.mem).1;
        screen = print_all (bytes s.mem buf 512) s.screen;
      })
unfolding write_loop
write_step k loc buf left s big apart =
    let m1 : Mem = (copy_from_user buf loc (pos 512) s.mem).1 in
    let more : ltb 512 left ≡ true = ground arith in
    let out = sys_write_console-prints m1 loc 512 s.screen in
    let same = chunk-bytes buf loc 512 s.mem apart in rw (more, out, same)

write_loop-last :
    (k loc buf left : ℕ) (s : Machine)
    → left ≤ 512
    → write_loop (suc k) loc buf left s ≡ some (write_last loc buf left s)
unfolding write_loop
write_loop-last k loc buf left s small = let last : ltb 512 left ≡ false = ground arith in rw last

write_loop-Prints :
    (k loc buf left : ℕ) (s : Machine)
    → left < k
    → Clear loc buf left
    → (r : ℕ × Machine) × (write_loop k loc buf left s ≡ some r) × Prints buf left s r
write_loop-Prints zero loc buf left s lt clear = absurd (omega arith)
write_loop-Prints (suc k) loc buf left s lt clear = elim (Bool-cases (ltb 512 left)) [
  | inr last ↦
      let small : left ≤ 512 = ground arith in
      (
        write_last loc buf left s,
        write_loop-last k loc buf left s small,
        write_last-Prints loc buf left s small clear,
      )
  | inl more ↦
      let apart : Apart buf loc 512 = ground arith in
      let m1 : Mem = (copy_from_user buf loc (pos 512) s.mem).1 in
      let s1 : Machine = record { mem = m1; screen = print_all (bytes s.mem buf 512) s.screen } in
      let rest =
        write_loop-Prints k loc (buf + 512) (left - 512) s1 (ground arith) (ground arith) in
      let whole : left ≡ 512 + (left - 512) = ground arith in
      let behind = bytes-eq (left - 512) s.mem m1 (buf + 512) (buf + 512) (λ i h.
        ground (arith, (copy_from_user-copied buf loc 512 s.mem apart).1 (buf + 512 + i))) in
      let text : bytes s.mem buf left ≡ bytes s.mem buf 512 ++ bytes m1 (buf + 512) (left - 512) =
        ap (λ n. bytes s.mem buf n) whole
        ∙ bytes-add 512 (left - 512) s.mem buf
        ∙ ap (λ t. bytes s.mem buf 512 ++ t) behind in
      (
        rest.0,
        write_step k loc buf left s (ground arith) apart ∙ rest.1,
        (
          rest.2.0,
          rest.2.1
              ∙ sym (
                  ap (λ t. print_all t s.screen) text
                  ∙ print_all-append (bytes s.mem buf 512) _ s.screen),
        ),
      )
]

-- A write of `n` bytes to descriptor 1, from a buffer that access_ok accepts and that does not
-- overlap the kernel's, returns `n` and prints exactly the bytes of the buffer, in order.
sys_write-whole :
    (loc buf n : ℕ) (s : Machine)
    → access_ok verify_read buf n ≡ 1
    → (loc + 512 ≤ buf) ⊎ (buf + n ≤ loc)
    → (s' : Machine) × (sys_write loc (pos 1) buf (pos n) s ≡ some (pos n, s'))
      × (s'.screen ≡ print_all (bytes s.mem buf n) s.screen)
unfolding sys_write write_checked check_fd
sys_write-whole loc buf n s ok clear =
    let r = write_loop-Prints (n + 1) loc buf n s (omega arith) clear in
    let none_left : n - r.0.0 ≡ n = ground (arith, r.2.0) in (r.0.1, rw (ok, r.1, none_left), r.2.1)
