-- ===== src/Build/Copy.antt =====
-- zeos/build.c: the loop that copies a file to the image.
use fib_so.Prelude.{
  ℕ, zero, suc, ◌+◌, ◌-◌, ◌^◌, ◌%◌, ◌≤◌, ◌<◌, ◌≡◌, ◌∙◌, refl, arith, ltb, leb, ◌&&◌, true, subst,
  if◌then◌else◌, some, Bool-cases, inl, inr,
}
use fib_so.Build.{
  ok, File, Output, State, open_file, read, write, copy_chunk, copy_loop, stat_size, copy_file,
  sizeof_buf,
}

-- `s'` is `s` with `sz` more bytes of the file copied to the end of the image.
pub record Copied (sz : ℕ) (s s' : State) : Type 0 where
  pub image :
      (q : ℕ)
      → s'.out.image q ≡ (
          if leb s.out.size q && ltb q (s.out.size + sz)
          then s.fd.bytes (s.offset + (q - s.out.size))
          else s.out.image q)
  pub size : s'.out.size ≡ s.out.size + sz
  pub end : s'.out.offset ≡ s'.out.size
  pub room : s'.out.room ≡ s.out.room
  pub seekable : s'.out.seekable ≡ s.out.seekable
  pub fd : s'.fd ≡ s.fd
  pub offset : s'.offset ≡ s.offset + sz

-- There are `sz` bytes left to read, and as much room.
pub record Ready (sz : ℕ) (s : State) : Type 0 where
  pub readable : s.fd.readable ≡ true
  pub left : s.offset + sz ≤ s.fd.length
  pub end : s.out.offset ≡ s.out.size
  pub space : s.out.size + sz ≤ s.out.room

copy_chunk-Copied :
    (l : ℕ) (s : State) → Ready l s → (s' : State) × (copy_chunk l s ≡ ok s') × Copied l s s'
unfolding copy_chunk read write
copy_chunk-Copied l s r =
    let n : ℕ = if leb l (s.fd.length - s.offset) then l else s.fd.length - s.offset in
    let o : Output = s.out in
    let b : ℕ → ℕ = λ q. if ltb q n then s.fd.bytes (s.offset + q) else s.buf q in
    (
      record s {
        buf = b;
        offset = s.offset + n;
        out = record o {
          image =
              λ q. if leb o.offset q && ltb q (o.offset + l) then b (q - o.offset) else o.image q;
          size = if leb o.size (o.offset + l) then o.offset + l else o.size;
          offset = o.offset + l;
        };
      },
      ground (arith, r),
      record {
        image = λ q. ground arith;
        size = ground arith;
        end = ground arith;
        room = refl;
        seekable = refl;
        fd = refl;
        offset = ground arith;
      },
    )

Copied-trans : (a b : ℕ) (s t u : State) → Copied a s t → Copied b t u → Copied (a + b) s u
Copied-trans a b s t u p q = record {
  image = λ i. q.image i ∙ rw (p.size, p.fd, p.offset) (ground (arith, p.image i));
  size = omega (arith, p.size, q.size);
  end = q.end;
  room = q.room ∙ p.room;
  seekable = q.seekable ∙ p.seekable;
  fd = q.fd ∙ p.fd;
  offset = omega (arith, p.offset, q.offset);
}

Ready-rest :
    (l rest sz : ℕ) (s t : State) → l + rest ≡ sz → Copied l s t → Ready sz s → Ready rest t
Ready-rest l rest sz s t e c r = record {
  readable = rw c.fd r.readable;
  left = rw (c.fd, c.offset) (omega (arith, r.left));
  end = c.end;
  space = rw (c.size, c.room) (omega (arith, r.space));
}

Ready-first : (l sz : ℕ) (s : State) → l ≤ sz → Ready sz s → Ready l s
Ready-first l sz s le r = record {
  readable = r.readable;
  left = omega (arith, r.left);
  end = r.end;
  space = omega (arith, r.space);
}

Copied-none : (sz : ℕ) (s : State) → sz ≡ 0 → Ready sz s → Copied sz s s
Copied-none sz s e r = record {
  image = λ q. ground arith;
  size = omega arith;
  end = r.end;
  room = refl;
  seekable = refl;
  fd = refl;
  offset = omega arith;
}

chunk-le : (sz : ℕ) → (if ltb sizeof_buf sz then sizeof_buf else sz) ≤ sz
chunk-le sz = ground arith

-- With the bytes there and room for them, `sz` rounds copy all `sz` bytes.
copy_loop-Copied :
    (k sz : ℕ) (s : State)
    → sz ≤ k
    → Ready sz s
    → (s' : State) × (copy_loop k sz s ≡ ok s') × Copied sz s s'
unfolding copy_loop
copy_loop-Copied zero sz s le r = (s, refl, Copied-none sz s (omega arith) r)
copy_loop-Copied (suc k) sz s le r = elim (Bool-cases (ltb 0 sz)) [
  | inl more ↦
      let l : ℕ = if ltb sizeof_buf sz then sizeof_buf else sz in
      let all : l + (sz - l) ≡ sz = omega (arith, chunk-le sz) in
      let fewer : sz - l ≤ k = ground arith in
      let a = copy_chunk-Copied l s (Ready-first l sz s (chunk-le sz) r) in
      let b = copy_loop-Copied k (sz - l) a.0 fewer (Ready-rest l (sz - l) sz s a.0 all a.2 r) in
      (
        b.0,
        rw (more, a.1) b.1,
        subst (λ n. Copied n s b.0) all (Copied-trans l (sz - l) s a.0 b.0 a.2 b.2),
      )
  | inr none_left ↦ (s, rw none_left, Copied-none sz s (ground arith) r)
]

-- A file that can be copied, to an image with `size` bytes: all of it can be read, and there is
-- room for it.
pub record IsSound (f : File) (n : ℕ) : Type 0 where
  pub readable : f.readable ≡ true
  pub whole : f.length ≡ n
  pub stat : f.st_size ≡ some n
  pub small : n < 2 ^ 32

stat_size-IsSound : (f : File) (n : ℕ) → IsSound f n → stat_size f ≡ ok n
unfolding stat_size
stat_size-IsSound f n i = let word : n % 2 ^ 32 ≡ n = omega (arith, i.small) in rw (i.stat, word)

-- copy_file appends the file to the image.
pub copy_file-Copied :
    (f : File) (n : ℕ) (s : State)
    → IsSound f n
    → s.out.offset ≡ s.out.size
    → s.out.size + n ≤ s.out.room
    → (s' : State) × (copy_file (some f) s ≡ ok (n, s'))
      × Copied n (record s { fd = f; offset = 0 }) s'
unfolding copy_file open_file
copy_file-Copied f n s i end space =
    let s0 : State = record s { fd = f; offset = 0 } in
    let c =
      copy_loop-Copied n n s0 (omega arith) (record {
        readable = i.readable;
        left = omega (arith, i.whole);
        end = end;
        space = space;
      }) in
    (c.0, rw (stat_size-IsSound f n i, c.1), c.2)
