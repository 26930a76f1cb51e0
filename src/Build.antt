-- ===== src/Build.antt =====
-- zeos/build.c: the tool that puts the boot image together from the boot sector, the system and the
-- user program. Files are read through read(2); the image goes to the standard output, which may
-- have no room left or, as a pipe, allow no seek. What is printed to the standard error stands only
-- as the message with which the tool gives up.
pub mod Copy
pub mod Image
pub mod Sector
pub mod Accepted
use fib_so.Prelude.{
  ℕ, zero, suc, ◌+◌, ◌-◌, ◌*◌, ◌/◌, ◌%◌, ◌^◌, ◌==◌, ltb, leb, Bool, true, false, ◌&&◌, not,
  if◌then◌else◌, update, Option, none, some, List, [], ◌∷◌,
}
use fib_so.Prelude.Int.{ℤ, pos, negsuc}

pub data Message : Type 0 where
  usage unable_to_open unable_to_stat unable_to_read_header non_minix_header : Message
  illegal_data_segment illegal_bss_segment illegal_symbol_table : Message
  boot_block_size no_boot_flag error_reading unexpected_eof seek_failed : Message
  write_call_failed write_failed image_length_failed system_length_failed user_length_failed :
      Message

-- `die` ends the tool.
pub data Result (A : Type 0) : Type 0 where
  die : Message → Result A
  ok : A → Result A

infixl 5 ◌>>=◌ ◌>>◌
abbrev pub ◌>>=◌ : {A B : Type 0} → Result A → (A → Result B) → Result B
die message >>= next = die message
ok value >>= next = next value

abbrev pub ◌>>◌ : {B : Type 0} → Result (Unit {0}) → Result B → Result B
first >> second = first >>= λ done. second

-- `if (!passed) die(message);`
abbrev pub check : Bool → Message → Result (Unit {0})
check passed message = if passed then ok tt else die message

-- A file that can be opened: its bytes, how many there are, what fstat says of its size, and
-- whether read(2) succeeds on it.
pub record File : Type 0 where
  pub bytes : ℕ → ℕ
  pub length : ℕ
  pub st_size : Option ℕ
  pub readable : Bool

-- The standard output: what has been written, the offset, and how far it can grow.
pub record Output : Type 0 where
  pub image : ℕ → ℕ
  pub size : ℕ
  pub offset : ℕ
  pub room : ℕ
  pub seekable : Bool

-- `buf`, the file at `fd` with its offset, and the standard output.
pub record State : Type 0 where
  pub buf : ℕ → ℕ
  pub fd : File
  pub offset : ℕ
  pub out : Output

abbrev pub sizeof_buf : ℕ
sizeof_buf = 1024

abbrev pub least : ℕ → ℕ → ℕ
least a b = if leb a b then a else b

abbrev pub most : ℕ → ℕ → ℕ
most a b = if leb a b then b else a

open_file : Option File → State → Result State
open_file none s = die unable_to_open
open_file (some f) s = ok (record s { fd = f; offset = 0 })

-- `read(fd, buf, l)`
read : ℕ → State → ℤ × State
read l s =
    let n : ℕ = least l (s.fd.length - s.offset) in
    if s.fd.readable
    then (
      pos n,
      record s {
        buf = λ q. if ltb q n then s.fd.bytes (s.offset + q) else s.buf q;
        offset = s.offset + n;
      },
    )
    else (negsuc 0, s)

abbrev pub has_size : ℤ → ℕ → Bool
has_size (pos n) l = n == l
has_size (negsuc n) l = false

abbrev pub is_error : ℤ → Bool
is_error (pos n) = false
is_error (negsuc n) = true

-- `if (write(1, buf, l) != l) die(failed);`
write : Message → ℕ → State → Result State
write failed l s =
    let o : Output = s.out in
    if leb (o.offset + l) o.room
    then ok (record s {
      out = record o {
        image =
            λ q. if leb o.offset q && ltb q (o.offset + l) then s.buf (q - o.offset) else o.image q;
        size = most o.size (o.offset + l);
        offset = o.offset + l;
      };
    })
    else die failed

-- `if (lseek(1, p, SEEK_SET) != p) die(...);`
seek : ℕ → State → Result State
seek p s =
    if s.out.seekable
    then ok (record s { out = record (s.out) { offset = p } })
    else die seek_failed

-- `lb[i]`, the words of buf.
abbrev pub word : (ℕ → ℕ) → ℕ → ℕ
word b i = b (4 * i) + 256 * b (4 * i + 1) + 65536 * b (4 * i + 2) + 16777216 * b (4 * i + 3)

-- The bytes that a Minix header starts with.
abbrev pub is_hdr : (ℕ → ℕ) → Bool
is_hdr b =
    (b 0 == 0x01)
    && (b 1 == 0x03)
    && (b 2 == 0x10)
    && (b 3 == 0x04)
    && (b 4 == 0x20)
    && (b 5 == 0)
    && (b 6 == 0)
    && (b 7 == 0)

pub check_header : (ℕ → ℕ) → Result (Unit {0})
check_header b = do
  check (is_hdr b && (word b 5 == 0)) non_minix_header
  check (word b 3 == 0) illegal_data_segment
  check (word b 4 == 0) illegal_bss_segment
  check (word b 7 == 0) illegal_symbol_table

abbrev pub minix_header_len : ℕ
minix_header_len = 32

pub minix_open : Option File → State → Result State
minix_open name s = do
  s ← open_file name s
  let r = read minix_header_len s
  check (has_size r.0 minix_header_len) unable_to_read_header
  check_header r.1.buf
  ok r.1

-- The boot sector behind the header, with a root device of 0.
sector : State → Result State
sector s = do
  let r = read sizeof_buf s
  check (has_size r.0 512) boot_block_size
  check ((r.1.buf 510 == 0x55) && (r.1.buf 511 == 0xaa)) no_boot_flag
  write write_call_failed 512 (record r.1 { buf = update (update r.1.buf 508 0) 509 0 })

pub boot_sector : Option File → State → Result State
boot_sector name s = do s ← minix_open name s; sector s

-- The body of the loop, with `l` bytes to copy.
copy_chunk : ℕ → State → Result State
copy_chunk l s = do
  let r = read l s
  check (not (is_error r.0)) error_reading
  check (has_size r.0 l) unexpected_eof
  write write_failed l r.1

-- `while (sz > 0) { ... }`: `sz` rounds are enough, since each copies a byte at least.
pub copy_loop : ℕ → ℕ → State → Result State
copy_loop zero sz s = ok s
copy_loop (suc k) sz s =
    let l : ℕ = if ltb sizeof_buf sz then sizeof_buf else sz in
    let rest = copy_chunk l s >>= λ s. copy_loop k (sz - l) s in if ltb 0 sz then rest else ok s

stat_size : File → Result ℕ
stat_size f = elim (f.st_size) [ none ↦ die unable_to_stat | some n ↦ ok (n % 2 ^ 32) ]

-- A file as a whole; its size is returned.
pub copy_file : Option File → State → Result (ℕ × State)
copy_file name s = do
  s ← open_file name s
  size ← stat_size s.fd
  s ← copy_loop size size s
  ok (size, s)

-- `buf[0] = v & 0xff; buf[1] = (v >> 8) & 0xff; buf[2] = (v >> 16) & 0xff; buf[3] = 0;`
abbrev pub set_length : ℕ → State → State
set_length v s = record s {
  buf =
      update (update (update (update s.buf 0 (v % 256)) 1 (v / 256 % 256)) 2 (v / 65536 % 256)) 3 0;
}

-- `l` bytes of buf at `p`.
put : Message → ℕ → ℕ → State → Result State
put failed p l s = do s ← seek p s; write failed l s

-- The number of paragraphs of the system and the user program, at the end of the boot sector.
abbrev pub im_size : ℕ → ℕ → ℕ
im_size sys_size usr_size = (sys_size + usr_size + 15) % 2 ^ 32 / 16

pub write_lengths : ℕ → ℕ → State → Result State
write_lengths sys_size usr_size s = do
  let im = im_size sys_size usr_size
  s ←
      put image_length_failed 500 2
        (record s { buf = update (update s.buf 0 (im % 256)) 1 (im / 256 % 256) })
  s ← put system_length_failed 512 4 (set_length sys_size s)
  s ← put user_length_failed 516 4 (set_length usr_size s)
  put user_length_failed 520 4 (set_length 0x7e6a s)

build : Option File → Option File → Option File → State → Result Output
build boot system user s = do
  s ← boot_sector boot s
  (sys_size, s) ← copy_file system s
  (usr_size, s) ← copy_file user s
  s ← write_lengths sys_size usr_size s
  ok s.out

abbrev pub no_file : File
no_file = record { bytes = λ q. 0; length = 0; st_size = none; readable = false }

-- The arguments are those behind the name of the tool.
pub main : List (Option File) → Output → Result Output
main (boot ∷ system ∷ user ∷ []) o =
    build boot system user (record { buf = λ q. 0; fd = no_file; offset = 0; out = o })
main argv o = die usage
