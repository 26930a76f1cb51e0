-- ===== src/Memory.antt =====
-- zeos/utils.c: copies between memory areas and the check of user pointers. The memory is the byte
-- at each address; a DWord is moved as its four bytes, all read before any is written.
pub mod Access
pub mod Copy
use fib_so.Prelude.{
  ℕ, zero, suc, ◌+◌, ◌-◌, ◌/◌, ◌%◌, ◌^◌, ◌==◌, ltb, leb, ◌&&◌, if◌then◌else◌, update, List, [], ◌∷◌,
}
use fib_so.Prelude.Int.{ℤ, pos, negsuc}

abbrev pub Mem : Type 0
Mem = ℕ → ℕ

-- The `n` bytes from address `a` on.
abbrev pub bytes : Mem → ℕ → ℕ → List ℕ
bytes m a zero = []
bytes m a (suc n) = m a ∷ bytes m (a + 1) n

-- `*q = *p` for DWord pointers.
abbrev pub move_dword : ℕ → ℕ → Mem → Mem
move_dword p q m =
    update (update (update (update m q (m p)) (q + 1) (m (p + 1))) (q + 2) (m (p + 2))) (q + 3)
      (m (p + 3))

-- `while (size > 0) { *q1++ = *p1++; size--; }`
copy_bytes : ℕ → ℕ → ℕ → Mem → Mem
copy_bytes zero p q m = m
copy_bytes (suc size) p q m = copy_bytes size (p + 1) (q + 1) (update m q (m p))

-- `while (size > 4) { *q++ = *p++; size -= 4; }` and the byte loop behind it. The fuel is more
-- than the rounds that the first loop makes (`Copy`).
copy_dwords : ℕ → ℕ → ℕ → ℕ → Mem → Mem
copy_dwords zero p q size m = copy_bytes size p q m
copy_dwords (suc k) p q size m =
    let rest = copy_dwords k (p + 4) (q + 4) (size - 4) (move_dword p q m) in
    if ltb 4 size then rest else copy_bytes size p q m

-- A negative size copies nothing.
pub copy_data : ℕ → ℕ → ℤ → Mem → Mem
copy_data start dest (pos size) m = copy_dwords size start dest size m
copy_data start dest (negsuc n) m = m

-- The two others have the body of `copy_data`, and return 0.
pub copy_from_user : ℕ → ℕ → ℤ → Mem → ℤ × Mem
copy_from_user start dest (pos size) m = (pos 0, copy_dwords size start dest size m)
copy_from_user start dest (negsuc n) m = (pos 0, m)

pub copy_to_user : ℕ → ℕ → ℤ → Mem → ℤ × Mem
copy_to_user start dest (pos size) m = (pos 0, copy_dwords size start dest size m)
copy_to_user start dest (negsuc n) m = (pos 0, m)

abbrev pub verify_read : ℕ
verify_read = 0

abbrev pub verify_write : ℕ
verify_write = 1

abbrev pub num_pag_data : ℕ
num_pag_data = 20

abbrev pub num_pag_code : ℕ
num_pag_code = 8

-- `L_USER_START >> 12`
abbrev pub pag_log_init_data : ℕ
pag_log_init_data = 0x400000 / 4096

-- `type`, `addr` and `size` are 32-bit words. The `default:` case of the switch, into which the
-- case VERIFY_WRITE falls through.
abbrev access_default : ℕ → ℕ → ℕ
access_default addr_ini addr_fin =
    if leb pag_log_init_data addr_ini
      && leb addr_fin (pag_log_init_data + num_pag_code + num_pag_data)
    then 1
    else 0

unfoldable pub access_ok : ℕ → ℕ → ℕ → ℕ
access_ok type addr size =
    let addr_ini : ℕ = addr / 4096 in
    let addr_fin : ℕ = (addr + size) % 2 ^ 32 / 4096 in
    if ltb addr_fin addr_ini
    then 0
    else if type == verify_write
    then (if leb pag_log_init_data addr_ini && leb addr_fin (pag_log_init_data + num_pag_data)
        then 1
        else access_default addr_ini addr_fin)
    else access_default addr_ini addr_fin
