-- ===== src/Start.antt =====
-- zeos/system.c: main copies the user program, which the image holds behind the system, to where it
-- runs. The loader in assembly, which has put system and program at KERNEL_START, is a hypothesis.
use fib_so.Prelude.{
  ℕ, ◌+◌, ◌-◌, ◌*◌, ◌/◌, ◌%◌, ◌^◌, ◌≤◌, ◌<◌, ◌≡◌, ◌∙◌, ap, arith, ltb, leb, ◌&&◌, true, false, refl,
  some, [], ◌∷◌, ◌⊎◌, inl, inr,
}
use native.Mathlib.Nat.{add_assoc}
use fib_so.Prelude.Int.{pos}
use fib_so.Memory.{Mem, copy_data}
use fib_so.Memory.Copy.{Apart, copy_data-copied}
use fib_so.Build.{File, Output, ok, main, most}
use fib_so.Build.Copy.{IsSound}
use fib_so.Build.Sector.{IsBoot}
use fib_so.Build.Image.{with_lengths, parts, main-parts}

abbrev pub kernel_start : ℕ
kernel_start = 0x10000

abbrev pub l_user_start : ℕ
l_user_start = 0x400000

-- An `unsigned int` in memory.
abbrev pub dword : Mem → ℕ → ℕ
dword m a = m a + 256 * m (a + 1) + 65536 * m (a + 2) + 16777216 * m (a + 3)

-- `*p_sys_size` and `*p_usr_size`
abbrev pub sys_size : Mem → ℕ
sys_size m = dword m kernel_start

abbrev pub usr_size : Mem → ℕ
usr_size m = dword m (kernel_start + 4)

pub copy_user_program : Mem → Mem
copy_user_program m = copy_data (kernel_start + sys_size m) l_user_start (pos (usr_size m)) m

-- What the loader has left at KERNEL_START when main copies: of the paragraphs that the boot sector
-- counts, the two lengths and what stands from the end of the system, of `m` bytes, on. The variables
-- that main has written by then are in the system, behind the lengths.
abbrev pub Loaded : ℕ → (ℕ → ℕ) → Mem → Type 0
Loaded m image mem =
    (q : ℕ)
    → q < 16 * (image 500 + 256 * image 501)
    → (q < 8) ⊎ (m ≤ q)
    → mem (kernel_start + q) ≡ image (512 + q)

module _ (m n : ℕ) (base image : ℕ → ℕ) (mem : Mem)
    (built : (q : ℕ) → q < most (512 + m + n) 524 → image q ≡ with_lengths m n base q)
    (loaded : Loaded m image mem) (long : 12 ≤ m) (small : m + n + 16 ≤ 2 ^ 20) where
  -- The paragraphs counted hold system and program.
  counted : m + n ≤ 16 * (image 500 + 256 * image 501)
  counted =
      let low : image 500 ≡ (m + n + 15) % 2 ^ 32 / 16 % 256 = built 500 (ground arith) in
      let high : image 501 ≡ (m + n + 15) % 2 ^ 32 / 16 / 256 % 256 = built 501 (ground arith) in
      omega arith

  in_memory :
      (q : ℕ)
      → q < m + n
      → (q < 8) ⊎ (m ≤ q)
      → mem (kernel_start + q) ≡ with_lengths m n base (512 + q)
  in_memory q h part = loaded q (omega (arith, counted)) part ∙ built (512 + q) (ground arith)

  sys_size-m : sys_size mem ≡ m
  sys_size-m = omega (
    arith,
    in_memory 0 (omega arith) (inl (omega arith)),
    in_memory 1 (omega arith) (inl (omega arith)),
    in_memory 2 (omega arith) (inl (omega arith)),
    in_memory 3 (omega arith) (inl (omega arith)),
  )

  usr_size-n : usr_size mem ≡ n
  usr_size-n = omega (
    arith,
    in_memory 4 (omega arith) (inl (omega arith)),
    in_memory 5 (omega arith) (inl (omega arith)),
    in_memory 6 (omega arith) (inl (omega arith)),
    in_memory 7 (omega arith) (inl (omega arith)),
  )

  source : (p : ℕ) → p < n → mem (kernel_start + m + p) ≡ base (512 + m + p)
  source p h =
      let behind : with_lengths m n base (512 + (m + p)) ≡ base (512 + m + p) = ground arith in
      ap mem (add_assoc kernel_start m p)
      ∙ in_memory (m + p) (omega arith) (inr (omega arith))
      ∙ behind

  copied : (p : ℕ) → p < n → copy_user_program mem (l_user_start + p) ≡ base (512 + m + p)
  unfolding copy_user_program
  copied p h =
      let apart : Apart (kernel_start + m) l_user_start n = ground arith in
      let c = copy_data-copied (kernel_start + m) l_user_start n mem (l_user_start + p) apart in
      let there : (leb l_user_start (l_user_start + p) && ltb (l_user_start + p) (l_user_start + n))
          ≡ true =
        ground arith in
      let back : l_user_start + p - l_user_start ≡ p = omega arith in
      rw (sys_size-m, usr_size-n) (c ∙ rw (there, back) (source p h))

program :
    (boot system user : File) (m p : ℕ) → parts boot system user m (512 + m + p) ≡ user.bytes p
program boot system user m p =
    let out : ltb (512 + m + p) 512 ≡ false = ground arith in
    let behind : ltb (512 + m + p) (512 + m) ≡ false = ground arith in
    let index : 512 + m + p - (512 + m) ≡ p = omega arith in rw (out, behind, index) refl

module _ (boot system user : File) (m n : ℕ) (o : Output) where
  -- From an image that the builder makes on an empty seekable output with room, of a boot sector in
  -- Minix format and files that can be read, the system no shorter than the three lengths and all of
  -- it below a megabyte, and in a memory that holds the image's lengths and user program where the
  -- loader puts them (of the system's own bytes behind the lengths nothing is asked), the kernel's
  -- copy puts the user program where it runs, byte for byte.
  pub copy_user_program-main :
      IsBoot boot
      → IsSound system m
      → IsSound user n
      → o.size ≡ 0
      → o.offset ≡ 0
      → o.seekable ≡ true
      → 512 + m + n ≤ o.room
      → 12 ≤ m
      → m + n + 16 ≤ 2 ^ 20
      → (o' : Output) × (main (some boot ∷ some system ∷ some user ∷ []) o ≡ ok o')
        × ((mem : Mem)
            → Loaded m o'.image mem
            → (p : ℕ) → p < n
            → copy_user_program mem (l_user_start + p) ≡ user.bytes p)
  copy_user_program-main i j k empty begin seekable space long small =
      let r = main-parts boot system user m n o i j k empty begin seekable (omega arith) space in
      (
        r.0,
        r.1,
        λ mem loaded p inside.
            copied m n (parts boot system user m) r.0.image mem (λ q h. r.3 q (rw r.2 h)) loaded
              long small p inside
            ∙ program boot system user m p,
      )
