-- ===== src/Build/Sector.antt =====
-- zeos/build.c: the boot sector, from a file in Minix format to the start of the image.
use fib_so.Prelude.{
  ℕ, ◌+◌, ◌-◌, ◌≤◌, ◌≡◌, refl, arith, ltb, ◌==◌, ◌||◌, true, if◌then◌else◌, some, update, leb, ◌&&◌,
}
use fib_so.Build.{
  ok, most, File, State, is_hdr, word, open_file, read, write, check_header, minix_open, sector,
  boot_sector,
}

-- A boot sector of 512 bytes with the boot flag, behind a header of 32 bytes.
pub record IsBoot (f : File) : Type 0 where
  pub readable : f.readable ≡ true
  pub whole : f.length ≡ 544
  pub header : is_hdr f.bytes ≡ true
  pub no_data : word f.bytes 3 ≡ 0
  pub no_bss : word f.bytes 4 ≡ 0
  pub magic : word f.bytes 5 ≡ 0
  pub no_symbols : word f.bytes 7 ≡ 0
  pub flag_low : f.bytes 542 ≡ 0x55
  pub flag_high : f.bytes 543 ≡ 0xaa

-- The sector as it stands in the image.
pub record Started (f : File) (s s' : State) : Type 0 where
  pub image :
      (q : ℕ)
      → s'.out.image q ≡ (
          if ltb q 512
          then (if (q == 508) || (q == 509) then 0 else f.bytes (32 + q))
          else s.out.image q)
  pub size : s'.out.size ≡ 512
  pub end : s'.out.offset ≡ 512
  pub room : s'.out.room ≡ s.out.room
  pub seekable : s'.out.seekable ≡ s.out.seekable

abbrev pub opened : File → State → State
opened f s = record s {
  buf = λ q. if ltb q 32 then f.bytes (0 + q) else s.buf q;
  fd = f;
  offset = 32;
}

check_header_sound : (f : File) (s : State) → IsBoot f → check_header (opened f s).buf ≡ ok tt
unfolding check_header
check_header_sound f s i = rw (i.header, i.no_data, i.no_bss, i.magic, i.no_symbols) refl

minix_open-opened : (f : File) (s : State) → IsBoot f → minix_open (some f) s ≡ ok (opened f s)
unfolding minix_open open_file read
minix_open-opened f s i = rw (i.readable, i.whole, check_header_sound f s i) refl

pub boot_sector-Started :
    (f : File) (s : State)
    → IsBoot f
    → s.out.offset ≡ 0
    → s.out.size ≡ 0
    → 512 ≤ s.out.room
    → (s' : State) × (boot_sector (some f) s ≡ ok s') × Started f s s'
unfolding boot_sector sector read write
boot_sector-Started f s i begin empty space =
    let b : ℕ → ℕ = λ q. if ltb q 512 then f.bytes (32 + q) else (opened f s).buf q in
    let s1 : State = record (opened f s) { buf = update (update b 508 0) 509 0; offset = 544 } in
    (
      record s1 {
        out = record (s.out) {
          image = λ q.
              if leb s.out.offset q && ltb q (s.out.offset + 512)
              then s1.buf (q - s.out.offset)
              else s.out.image q;
          size = most s.out.size (s.out.offset + 512);
          offset = s.out.offset + 512;
        };
      },
      rw (minix_open-opened f s i, i.readable, i.whole, i.flag_low, i.flag_high) (ground arith),
      record {
        image = λ q. ground arith;
        size = ground arith;
        end = ground arith;
        room = refl;
        seekable = refl;
      },
    )
