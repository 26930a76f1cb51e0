-- ===== src/Build/Image.antt =====
-- zeos/build.c: the image as a whole, byte by byte.
use fib_so.Prelude.{
  ℕ, ◌+◌, ◌-◌, ◌/◌, ◌%◌, ◌≤◌, ◌<◌, ◌≡◌, ◌∙◌, sym, refl, arith, ltb, leb, ◌==◌, ◌||◌, ◌&&◌, true,
  if◌then◌else◌, some, [], ◌∷◌, update,
}
use native.Mathlib.Decide.{dec_lt}
use fib_so.Build.{
  ok, Message, image_length_failed, system_length_failed, user_length_failed, File, Output, State,
  most, im_size, set_length, no_file, seek, write, put, write_lengths, build, main,
}
use fib_so.Build.Copy.{IsSound, Copied, copy_file-Copied}
use fib_so.Build.Sector.{IsBoot, Started, boot_sector-Started}

-- The `k`-th byte of a length.
abbrev pub length_byte : ℕ → ℕ → ℕ
length_byte v k =
    if k == 0
    then v % 256
    else if k == 1
    then v / 256 % 256
    else if k == 2
    then v / 65536 % 256
    else 0

-- An image with the lengths put in.
abbrev pub with_lengths : ℕ → ℕ → (ℕ → ℕ) → ℕ → ℕ
with_lengths m n image q =
    if leb 520 q && ltb q 524
    then length_byte 0x7e6a (q - 520)
    else if leb 516 q && ltb q 520
    then length_byte n (q - 516)
    else if leb 512 q && ltb q 516
    then length_byte m (q - 512)
    else if q == 500
    then im_size m n % 256
    else if q == 501
    then im_size m n / 256 % 256
    else image q

-- What stands at `p` to `p + l` when buf has been put there.
abbrev putting : ℕ → ℕ → State → State
putting p l s = record s {
  out = record (s.out) {
    image = λ q. if leb p q && ltb q (p + l) then s.buf (q - p) else s.out.image q;
    size = most s.out.size (p + l);
    offset = p + l;
  };
}

put-putting :
    (failed : Message) (p l : ℕ) (s : State)
    → s.out.seekable ≡ true
    → p + l ≤ s.out.room
    → put failed p l s ≡ ok (putting p l s)
unfolding put seek write
put-putting failed p l s seekable space =
    let fits : leb (p + l) s.out.room ≡ true = ground arith in rw (seekable, fits) refl

length-put :
    (p v q : ℕ) (s : State)
    → (putting p 4 (set_length v s)).out.image q
      ≡ (if leb p q && ltb q (p + 4) then length_byte v (q - p) else s.out.image q)
length-put p v q s = ground arith

paragraphs-put :
    (im q : ℕ) (s : State)
    → let t =
        putting 500 2 (record s { buf = update (update s.buf 0 (im % 256)) 1 (im / 256 % 256) }) in
      t.out.image q
      ≡ (if q == 500 then im % 256 else if q == 501 then im / 256 % 256 else s.out.image q)
paragraphs-put im q s = ground arith

over :
    (p v q : ℕ) {x y : ℕ}
    → x ≡ y
    → (if leb p q && ltb q (p + 4) then length_byte v (q - p) else x)
      ≡ (if leb p q && ltb q (p + 4) then length_byte v (q - p) else y)
over p v q e = rw e

write_lengths-with_lengths :
    (m n : ℕ) (s : State)
    → s.out.seekable ≡ true
    → 524 ≤ s.out.room
    → (s' : State) × (write_lengths m n s ≡ ok s')
      × ((q : ℕ) → s'.out.image q ≡ with_lengths m n s.out.image q)
      × (s'.out.size ≡ most s.out.size 524)
unfolding write_lengths
write_lengths-with_lengths m n s seekable space =
    let im : ℕ = im_size m n in
    let s0 : State = record s { buf = update (update s.buf 0 (im % 256)) 1 (im / 256 % 256) } in
    let s1 : State = putting 500 2 s0 in
    let s2 : State = putting 512 4 (set_length m s1) in
    let s3 : State = putting 516 4 (set_length n s2) in
    let s4 : State = putting 520 4 (set_length 0x7e6a s3) in
    (
      s4,
      rw
          (
            put-putting image_length_failed 500 2 s0 seekable (omega arith),
            put-putting system_length_failed 512 4 (set_length m s1) seekable (omega arith),
            put-putting user_length_failed 516 4 (set_length n s2) seekable (omega arith),
          )
          (put-putting user_length_failed 520 4 (set_length 0x7e6a s3) seekable space),
      λ q.
          length-put 520 0x7e6a q s3
          ∙ over 520 0x7e6a q (
              length-put 516 n q s2
              ∙ over 516 n q (length-put 512 m q s1 ∙ over 512 m q (paragraphs-put im q s))),
      ground arith,
    )

-- The parts of an image: a boot sector, a system of `m` bytes, a user program.
abbrev pub parts : File → File → File → ℕ → ℕ → ℕ
parts boot system user m q =
    if ltb q 512
    then (if (q == 508) || (q == 509) then 0 else boot.bytes (32 + q))
    else if ltb q (512 + m)
    then system.bytes (q - 512)
    else user.bytes (q - (512 + m))

parts-Copied :
    (boot system user : File) (m n q : ℕ) (s s1 s2 s3 : State)
    → Started boot s s1
    → Copied m (record s1 { fd = system; offset = 0 }) s2
    → Copied n (record s2 { fd = user; offset = 0 }) s3
    → q < 512 + m + n
    → s3.out.image q ≡ parts boot system user m q
parts-Copied boot system user m n q s s1 s2 s3 a b c small =
    c.image q ∙ rw (b.size, a.size) (ground (arith, a.size, a.image q, b.image q))

-- Where an image has no bytes of its own the lengths cover it.
with_lengths-cong :
    (m n q : ℕ) (f g : ℕ → ℕ)
    → q < most (512 + m + n) 524
    → (q < 512 + m + n → f q ≡ g q)
    → with_lengths m n f q ≡ with_lengths m n g q
with_lengths-cong m n q f g small same = elim (dec_lt q (512 + m + n)) [
  | yes inside ↦ rw (same inside) refl
  | no behind ↦ ground arith
]

module _ (boot system user : File) (m n : ℕ) (o : Output) where
  -- From a boot sector in Minix format and two files that can be read, on an empty output with room
  -- enough that can be sought in, the tool makes an image that is as long as its parts, 524 bytes at
  -- least. It starts with the 512 bytes of the sector, with no root device; the system and the user
  -- program follow. The number of paragraphs of the two stands at 500, and the lengths of the system
  -- and of the user program and 0x7e6a stand at 512, 516 and 520, over the start of the system.
  pub main-parts :
      IsBoot boot
      → IsSound system m
      → IsSound user n
      → o.size ≡ 0
      → o.offset ≡ 0
      → o.seekable ≡ true
      → 524 ≤ o.room
      → 512 + m + n ≤ o.room
      → (o' : Output) × (main (some boot ∷ some system ∷ some user ∷ []) o ≡ ok o')
        × (o'.size ≡ most (512 + m + n) 524)
        × ((q : ℕ) → q < o'.size → o'.image q ≡ with_lengths m n (parts boot system user m) q)
  unfolding main build
  main-parts i j k empty begin seekable head space =
      let s0 : State = record { buf = λ q. 0; fd = no_file; offset = 0; out = o } in
      let a = boot_sector-Started boot s0 i begin empty (omega arith) in
      let x : Started boot s0 a.0 = a.2 in
      let size1 : a.0.out.size + m ≤ a.0.out.room = omega (arith, x.size, x.room) in
      let b = copy_file-Copied system m a.0 j (x.end ∙ sym x.size) size1 in
      let y : Copied m (record (a.0) { fd = system; offset = 0 }) b.0 = b.2 in
      let size2 : b.0.out.size + n ≤ b.0.out.room = omega (arith, x.size, x.room, y.size, y.room) in
      let c = copy_file-Copied user n b.0 k y.end size2 in
      let z : Copied n (record (b.0) { fd = user; offset = 0 }) c.0 = c.2 in
      let room : 524 ≤ c.0.out.room = omega (arith, x.room, y.room, z.room) in
      let d =
        write_lengths-with_lengths m n c.0 (z.seekable ∙ y.seekable ∙ x.seekable ∙ seekable) room in
      let size : d.0.out.size ≡ most (512 + m + n) 524 = d.3 ∙ rw (z.size, y.size, x.size) refl in
      (
        d.0.out,
        rw (a.1, b.1, c.1, d.1) refl,
        size,
        λ q h.
            d.2 q
            ∙ with_lengths-cong m n q c.0.out.image (parts boot system user m) (rw size at h)
                (parts-Copied boot system user m n q s0 a.0 b.0 c.0 x y z),
      )
