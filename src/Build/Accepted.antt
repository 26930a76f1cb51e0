-- ===== src/Build/Accepted.antt =====
-- zeos/build.c: what the tool has checked when it ends with an image.
use fib_so.Prelude.{
  ℕ, ◌-◌, ◌≤◌, ◌<◌, ◌≡◌, refl, arith, leb, true, false, if◌then◌else◌, Option, none, some, List, [],
  ◌∷◌, Bool-cases, inl, inr, sym, ◌∙◌, subst, ◌≢◌, ◌==◌,
}
use native.Mathlib.Decide.{dec_lt, ℕ_discrete}
use fib_so.Build.{
  Result, Message, ok, ◌>>=◌, die, unable_to_read_header, boot_block_size, File, Output, State,
  is_hdr, word, no_file, open_file, read, write, check_header, minix_open, sector, boot_sector,
  copy_file, build, main,
}
use fib_so.Build.Sector.{IsBoot, opened}

ok-injective : {A : Type 0} {a b : A} → ok a ≡ ok b → a ≡ b
ok-injective e = cc

ok-ne-die : {A : Type 0} {a : A} {e : Message} → ok a ≢ die e
ok-ne-die e = cc

ok_parts :
    {A B : Type 0} (first : Result A) (next : A → Result B) {b : B}
    → (first >>= next) ≡ ok b
    → (a : A) × (first ≡ ok a) × (next a ≡ ok b)
ok_parts (die message) next e = absurd (ok-ne-die (sym e))
ok_parts (ok a) next e = (a, refl, e)

check_header-accepted :
    (b : ℕ → ℕ)
    → check_header b ≡ ok tt
    → (is_hdr b ≡ true) × (word b 3 ≡ 0) × (word b 4 ≡ 0) × (word b 5 ≡ 0) × (word b 7 ≡ 0)
unfolding check_header
check_header-accepted b h = (ground arith, ground arith, ground arith, ground arith, ground arith)

-- minix_open and the first read of the boot sector, where the file can be read.
minix_open-long :
    (f : File) (s : State)
    → f.readable ≡ true
    → 32 ≤ f.length
    → minix_open (some f) s ≡ (check_header (opened f s).buf >>= λ _. ok (opened f s))
unfolding minix_open open_file read
minix_open-long f s good long =
    let e : leb 32 (f.length - 0) ≡ true = ground arith in rw (good, e) refl

minix_open-short :
    (f : File) (s : State)
    → f.length < 32
    → f.readable ≡ true
    → minix_open (some f) s ≡ die unable_to_read_header
unfolding minix_open open_file read
minix_open-short f s short good =
    let e : leb 32 (f.length - 0) ≡ false = ground arith in
    let d : (f.length - 0 == 32) ≡ false = ground arith in rw (good, e, d) refl

minix_open-unreadable :
    (f : File) (s : State) → f.readable ≡ false → minix_open (some f) s ≡ die unable_to_read_header
unfolding minix_open open_file read
minix_open-unreadable f s bad = rw bad refl

minix_open-accepted :
    (f : File) (s s' : State)
    → minix_open (some f) s ≡ ok s'
    → (f.readable ≡ true)
      × (32 ≤ f.length)
      × (check_header (opened f s).buf ≡ ok tt)
      × (opened f s ≡ s')
minix_open-accepted f s s' h = elim (Bool-cases f.readable) [
  | inl good ↦ elim (dec_lt f.length 32) [
    | yes short ↦ absurd (ok-ne-die (sym h ∙ minix_open-short f s short good))
    | no long ↦
        let r =
          ok_parts (check_header (opened f s).buf) (λ _. ok (opened f s))
            (sym (minix_open-long f s good (omega arith)) ∙ h) in
        (good, omega arith, r.1, ok-injective r.2)
  ]
  | inr bad ↦ absurd (ok-ne-die (sym h ∙ minix_open-unreadable f s bad))
]

sector-accepted :
    (f : File) (s s' : State)
    → f.readable ≡ true
    → 32 ≤ f.length
    → sector (opened f s) ≡ ok s'
    → (f.length ≡ 544) × (f.bytes 542 ≡ 0x55) × (f.bytes 543 ≡ 0xaa)
unfolding sector read write
sector-accepted f s s' good long h = elim (ℕ_discrete f.length 544) [
  | yes whole ↦
      (whole, ground (arith, rw (good, whole) at h), ground (arith, rw (good, whole) at h))
  | no other ↦
      let e : ((if leb 1024 (f.length - 32) then 1024 else f.length - 32) == 512) ≡ false =
        ground arith in
      absurd (ok-ne-die {e = boot_block_size} (sym h ∙ rw (good, e) refl))
]

boot_sector-accepted : (f : File) (s s' : State) → boot_sector (some f) s ≡ ok s' → IsBoot f
unfolding boot_sector
boot_sector-accepted f s s' h =
    let r = ok_parts (minix_open (some f) s) (λ t. sector t) h in
    let a = minix_open-accepted f s r.0 r.1 in
    let c = check_header-accepted (opened f s).buf a.2 in
    let e = sector-accepted f s s' a.0 a.1 (rw a.3 r.2) in
    record {
      readable = a.0;
      whole = e.0;
      header = c.0;
      no_data = c.1;
      no_bss = c.2;
      magic = c.3;
      no_symbols = c.4;
      flag_low = e.1;
      flag_high = e.2;
    }

boot_sector-some :
    (x : Option File) (s s' : State) → boot_sector x s ≡ ok s' → (f : File) × (x ≡ some f)
unfolding boot_sector minix_open open_file
boot_sector-some none s s' h = absurd (ok-ne-die (sym h))
boot_sector-some (some f) s s' h = (f, refl)

copy_file-some :
    (x : Option File) (s : State) (r : ℕ × State) → copy_file x s ≡ ok r → (f : File) × (x ≡ some f)
unfolding copy_file open_file
copy_file-some none s r h = absurd (ok-ne-die (sym h))
copy_file-some (some f) s r h = (f, refl)

build-accepted :
    (x y z : Option File) (s : State) (o' : Output)
    → build x y z s ≡ ok o'
    → (boot : File) × (system : File) × (user : File) × (x ≡ some boot)
      × (y ≡ some system)
      × (z ≡ some user)
      × IsBoot boot
unfolding build
build-accepted x y z s o' h =
    let a = ok_parts (boot_sector x s) _ h in
    let b = ok_parts (copy_file y a.0) _ a.2 in
    let c = ok_parts (copy_file z b.0.1) _ b.2 in
    let f = boot_sector-some x s a.0 a.1 in
    let g = copy_file-some y a.0 b.0 b.1 in
    let k = copy_file-some z b.0.1 c.0 c.1 in
    (
      f.0,
      g.0,
      k.0,
      f.1,
      g.1,
      k.1,
      boot_sector-accepted f.0 s a.0 (subst (λ v. boot_sector v s ≡ ok a.0) f.1 a.1),
    )

-- An image is made only from three files that can be opened, the first a boot sector of 512 bytes
-- with the boot flag behind a Minix header without data, bss and symbols.
pub main-accepted :
    (argv : List (Option File)) (o o' : Output)
    → main argv o ≡ ok o'
    → (boot : File) × (system : File) × (user : File) × (argv
        ≡ some boot ∷ some system ∷ some user ∷ [])
      × IsBoot boot
unfolding main
main-accepted (x ∷ y ∷ z ∷ []) o o' h =
    let r =
      build-accepted x y z (record { buf = λ q. 0; fd = no_file; offset = 0; out = o }) o' h in
    (r.0, r.1, r.2, λ i. r.3 i ∷ r.4 i ∷ r.5 i ∷ [], r.6)
main-accepted [] o o' h = absurd (ok-ne-die (sym h))
main-accepted (x ∷ []) o o' h = absurd (ok-ne-die (sym h))
main-accepted (x ∷ y ∷ []) o o' h = absurd (ok-ne-die (sym h))
main-accepted (x ∷ y ∷ z ∷ w ∷ rest) o o' h = absurd (ok-ne-die (sym h))
