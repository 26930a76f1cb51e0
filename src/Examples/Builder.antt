-- ===== src/Examples/Builder.antt =====
-- Runs of the image builder: a boot sector, a system of 20 bytes and a user program of 5.
use fib_so.Prelude.{
  ℕ, ◌+◌, ◌≡◌, refl, arith, ◌==◌, ◌<◌, true, if◌then◌else◌, some, List, [], ◌∷◌, Option,
}
use fib_so.Build.{ok, most, File, Output, main}
use fib_so.Memory.{Mem}
use fib_so.Start.{Loaded, l_user_start, copy_user_program, copy_user_program-main}
use fib_so.Build.Copy.{IsSound}
use fib_so.Build.Sector.{IsBoot}
use fib_so.Build.Image.{with_lengths, parts, main-parts}
use fib_so.Build.Accepted.{main-accepted}

abbrev boot : File
boot = record {
  bytes = λ q.
      if q == 0
      then 0x01
      else if q == 1
      then 0x03
      else if q == 2
      then 0x10
      else if q == 3
      then 0x04
      else if q == 4
      then 0x20
      else if q == 542
      then 0x55
      else if q == 543
      then 0xaa
      else 0;
  length = 544;
  st_size = some 544;
  readable = true;
}

abbrev system : File
system = record { bytes = λ q. q + 1; length = 20; st_size = some 20; readable = true }

abbrev user : File
user = record { bytes = λ q. 200 + q; length = 5; st_size = some 5; readable = true }

abbrev empty_image : Output
empty_image = record { image = λ q. 0; size = 0; offset = 0; room = 4096; seekable = true }

boot-IsBoot : IsBoot boot
boot-IsBoot = record {
  readable = refl;
  whole = refl;
  header = refl;
  no_data = refl;
  no_bss = refl;
  magic = refl;
  no_symbols = refl;
  flag_low = refl;
  flag_high = refl;
}

system-IsSound : IsSound system 20
system-IsSound = record { readable = refl; whole = refl; stat = refl; small = omega arith }

user-IsSound : IsSound user 5
user-IsSound = record { readable = refl; whole = refl; stat = refl; small = omega arith }

abbrev argv : List (Option File)
argv = some boot ∷ some system ∷ some user ∷ []

main-parts_example :
    (o' : Output) × (main argv empty_image ≡ ok o')
    × (o'.size ≡ most 537 524)
    × ((q : ℕ) → q < o'.size → o'.image q ≡ with_lengths 20 5 (parts boot system user 20) q)
main-parts_example =
    main-parts boot system user 20 5 empty_image boot-IsBoot system-IsSound user-IsSound refl refl
      refl (omega arith) (omega arith)

main-ok : (o' : Output) × (main argv empty_image ≡ ok o')
main-ok =
    let r =
      main-parts boot system user 20 5 empty_image boot-IsBoot system-IsSound user-IsSound refl refl
        refl (omega arith) (omega arith) in
    (r.0, r.1)

main-accepted_example :
    (b : File) × (s : File) × (u : File) × (argv ≡ some b ∷ some s ∷ some u ∷ []) × IsBoot b
main-accepted_example = main-accepted argv empty_image main-ok.0 main-ok.1

copy_user_program-main_example :
    (o' : Output) × (main argv empty_image ≡ ok o')
    × ((mem : Mem)
        → Loaded 20 o'.image mem
        → (p : ℕ) → p < 5
        → copy_user_program mem (l_user_start + p) ≡ user.bytes p)
copy_user_program-main_example =
    copy_user_program-main boot system user 20 5 empty_image boot-IsBoot system-IsSound user-IsSound
      refl refl refl (omega arith) (omega arith) (omega arith)
