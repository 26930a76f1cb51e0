-- ===== src/Phase2/Write/Output.antt =====
-- so2_old/E1_E2/zeos/sys.c: what sys_write returns and prints.
use fib_so.Prelude.{
  ℕ, zero, suc, ◌+◌, ◌-◌, ◌%◌, ◌≤◌, ◌<◌, ◌≡◌, ◌≢◌, ◌⊎◌, inl, inr, refl, ap, ◌∙◌, arith, ltb, ◌==◌,
  if◌then◌else◌, Bool-cases, some, ◌++◌, append_assoc, false, true,
}
use fib_so.Prelude.Int.{ℤ, pos}
use fib_so.Memory.{Mem, bytes, copy_from_user}
use fib_so.Memory.Copy.{Apart, copied, copy_from_user-copied, bytes-eq, bytes-add}
use fib_so.Console.Cursor.{print_all}
use fib_so.Write.{Machine, check_fd}
use fib_so.Write.Output.{print_all-append, sys_write_console-prints, chunk-bytes}
use fib_so.Phase2.Write.{write_last, write_loop, sys_write}

-- The size of the last chunk of a write of `n` bytes: from 1 to 256, or 0 of none.
abbrev pub last_chunk : ℕ → ℕ
last_chunk n = if n == 0 then 0 else (n - 1) % 256 + 1

-- What the rest of a write of `left` bytes from `buf + off` on returns and prints: all but the last
-- chunk from its place, and then as many bytes from `buf`.
abbrev Prints : ℕ → ℕ → ℕ → ℕ → Machine → ℤ × Machine → Type 0
Prints buf left w off s r =
    (r.0 ≡ pos (w + left))
    × (r.1.screen
        ≡ print_all
            (bytes s.mem (buf + off) (left - last_chunk left) ++ bytes s.mem buf (last_chunk left))
            s.screen)

-- The kernel's buffer and what the write reads of the user's do not overlap.
abbrev pub Clear : ℕ → ℕ → ℕ → Type 0
Clear dest buf total = (dest + 256 ≤ buf) ⊎ (buf + total ≤ dest)

write_last-Prints :
    (dest buf left w off : ℕ) (s : Machine)
    → left ≤ 256
    → Clear dest buf (off + left)
    → Prints buf left w off s (write_last dest buf left w off s)
unfolding write_last print_all
write_last-Prints dest buf zero w off s le clear = (ap pos (omega arith), refl)
write_last-Prints dest buf (suc left) w off s le clear =
    let n : ℕ = suc left in
    let m1 : Mem = (copy_from_user (buf + off) dest (pos n) s.mem).1 in
    let copy = copy_from_user-copied (buf + off) dest n s.mem (ground arith) in
    let out = sys_write_console-prints m1 buf n s.screen in
    let last : last_chunk n ≡ n = ground arith in
    let same : bytes m1 buf n ≡ bytes s.mem buf n =
      bytes-eq n m1 s.mem buf buf (λ i lt. ground (arith, copy.1 (buf + i))) in
    let none_before : n - n ≡ 0 = omega arith in
    let some_left : ltb 0 n ≡ true = ground arith in
    (rw (some_left, copy.0, out), rw (some_left, copy.0, out, same, last, none_before))

write_step :
    (k dest buf left w off : ℕ) (s : Machine)
    → 256 < left
    → Apart (buf + off) dest 256
    → write_loop (suc k) dest buf left w off s
      ≡ write_loop k dest buf (left - 256) (w + 256) (off + 256) (record {
        mem = (copy_from_user (buf + off) dest (pos 256) s.mem).1;
        screen = print_all (bytes s.mem (buf + off) 256) s.screen;
      })
unfolding write_loop
write_step k dest buf left w off s big apart =
    let m1 : Mem = (copy_from_user (buf + off) dest (pos 256) s.mem).1 in
    let more : ltb 256 left ≡ true = ground arith in
    let ok = (copy_from_user-copied (buf + off) dest 256 s.mem apart).0 in
    let out = sys_write_console-prints m1 dest 256 s.screen in
    let same = chunk-bytes (buf + off) dest 256 s.mem apart in rw (more, ok, out, same)

write_loop-last :
    (k dest buf left w off : ℕ) (s : Machine)
    → left ≤ 256
    → write_loop (suc k) dest buf left w off s ≡ some (write_last dest buf left w off s)
unfolding write_loop
write_loop-last k dest buf left w off s small =
    let last : ltb 256 left ≡ false = ground arith in rw last

-- The text of a write of `left` bytes is that of its first `c` bytes and that of the rest, which the
-- copy of the first `c` leaves as it was.
text_split :
    (c dest buf left off : ℕ) (m m1 : Mem)
    → c ≤ 256
    → last_chunk (left - c) ≡ last_chunk left
    → c + last_chunk left ≤ left
    → Clear dest buf (off + left)
    → ((a : ℕ) → m1 a ≡ copied (buf + off) dest c m a)
    → bytes m (buf + off) (left - last_chunk left) ++ bytes m buf (last_chunk left)
      ≡ bytes m (buf + off) c
        ++ (bytes m1 (buf + (off + c)) (left - c - last_chunk (left - c))
            ++ bytes m1 buf (last_chunk (left - c)))
text_split c dest buf left off m m1 small same_last fits clear copy =
    let l : ℕ = last_chunk left in
    let r : ℕ = left - c - l in
    let len : left - l ≡ c + r = omega arith in
    let front =
      ap (λ n. bytes m (buf + off) n) len
      ∙ bytes-add c r m (buf + off)
      ∙ ap (λ t. bytes m (buf + off) c ++ t)
          (bytes-eq r m m1 (buf + off + c) (buf + (off + c))
            (λ i lt. ground (arith, copy (buf + (off + c) + i)))) in
    let back = bytes-eq l m m1 buf buf (λ i lt. ground (arith, copy (buf + i))) in
    rw (same_last, front, back, append_assoc)

write_loop-Prints :
    (k dest buf left w off : ℕ) (s : Machine)
    → left < k
    → Clear dest buf (off + left)
    → (r : ℤ × Machine) × (write_loop k dest buf left w off s ≡ some r) × Prints buf left w off s r
write_loop-Prints zero dest buf left w off s lt clear = absurd (omega arith)
write_loop-Prints (suc k) dest buf left w off s lt clear = elim (Bool-cases (ltb 256 left)) [
  | inr last ↦
      let small : left ≤ 256 = ground arith in
      (
        write_last dest buf left w off s,
        write_loop-last k dest buf left w off s small,
        write_last-Prints dest buf left w off s small clear,
      )
  | inl more ↦
      let big : 256 < left = ground arith in
      let apart : Apart (buf + off) dest 256 = ground arith in
      let m1 : Mem = (copy_from_user (buf + off) dest (pos 256) s.mem).1 in
      let first = bytes s.mem (buf + off) 256 in
      let s1 : Machine = record { mem = m1; screen = print_all first s.screen } in
      let rest =
        write_loop-Prints k dest buf (left - 256) (w + 256) (off + 256) s1 (omega arith)
          (ground arith) in
      let split =
        text_split 256 dest buf left off s.mem m1 (omega arith) (ground arith) (ground arith) clear
          (copy_from_user-copied (buf + off) dest 256 s.mem apart).1 in
      (
        rest.0,
        write_step k dest buf left w off s big apart ∙ rest.1,
        (rest.2.0 ∙ ap pos (omega arith), rest.2.1 ∙ rw split (simp print_all-append)),
      )
]

-- A write of `n` bytes to descriptor 1 from a buffer that does not overlap `dest_buffer` returns
-- `n`. It prints the bytes of the buffer up to the last chunk, and then, in place of the last
-- chunk, as many bytes from the start of the buffer.
pub sys_write-repeats :
    (dest buf n : ℕ) (s : Machine)
    → buf ≢ 0
    → (dest + 256 ≤ buf) ⊎ (buf + n ≤ dest)
    → (r : ℤ × Machine) × (sys_write dest (pos 1) buf (pos n) s ≡ some r)
      × (r.0 ≡ pos n)
      × (r.1.screen
          ≡ print_all
              (bytes s.mem buf (n - last_chunk n) ++ bytes s.mem buf (last_chunk n))
              s.screen)
unfolding sys_write check_fd
sys_write-repeats dest buf n s ne clear =
    let there : (buf == 0) ≡ false = ground arith in
    let base : buf + 0 ≡ buf = omega arith in
    let r = write_loop-Prints (n + 1) dest buf n 0 0 s (omega arith) (ground arith) in
    (r.0, rw there r.1, r.2.0 ∙ ap pos (omega arith), r.2.1 ∙ rw base)
