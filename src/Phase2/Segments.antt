-- ===== src/Phase2/Segments.antt =====
-- so2_old/E1_E2/zeos/mm.c and include/types.h: setGdt and setTSS, which give the processor the
-- kernel's task state segment. The instructions that load the registers are in assembly; what they
-- load is part of the result.
use fib_so.Prelude.{ℕ, ◌+◌, ◌*◌, ◌/◌, ◌%◌, ◌^◌, ◌-◌, ◌≤◌, ◌<◌, ◌≡◌, ◌≢◌, refl, arith, update}

-- `lowWord`, `midByte` and `highByte`
abbrev low_word : ℕ → ℕ
low_word address = address % 2 ^ 16

abbrev mid_byte : ℕ → ℕ
mid_byte address = address / 2 ^ 16 % 2 ^ 8

abbrev high_byte : ℕ → ℕ
high_byte address = address / 2 ^ 24 % 2 ^ 8

pub record Descriptor : Type 0 where
  pub limit : ℕ
  pub low_base : ℕ
  pub mid_base : ℕ
  pub flags1 : ℕ
  pub flags2 : ℕ
  pub high_base : ℕ

-- The register that holds the place of the table.
pub record Register : Type 0 where
  pub limit : ℕ
  pub base : ℕ

abbrev pub kernel_ds : ℕ
kernel_ds = 0x18

abbrev pub kernel_tss : ℕ
kernel_tss = 0x30

abbrev pub gdt_start : ℕ
gdt_start = 0x901b3

-- `tss` is the address of the segment.
pub set_gdt : ℕ → (ℕ → Descriptor) → (ℕ → Descriptor) × Register
set_gdt tss gdt =
    let d0 : Descriptor = record (gdt (kernel_tss / 8)) { low_base = low_word tss } in
    let d1 : Descriptor = record d0 { mid_base = mid_byte tss } in
    let d2 : Descriptor = record d1 { high_base = high_byte tss } in
    (update gdt (kernel_tss / 8) d2, record { limit = 256 * 8; base = gdt_start })

-- `TSS` without the fields none1 to none11, which pad it.
pub record Tss : Type 0 where
  pub previous_task_link : ℕ
  pub esp0 : ℕ
  pub ss0 : ℕ
  pub esp1 : ℕ
  pub ss1 : ℕ
  pub esp2 : ℕ
  pub ss2 : ℕ
  pub cr3 : ℕ
  pub eip : ℕ
  pub e_flags : ℕ
  pub eax : ℕ
  pub ecx : ℕ
  pub edx : ℕ
  pub ebx : ℕ
  pub esp : ℕ
  pub ebp : ℕ
  pub esi : ℕ
  pub edi : ℕ
  pub es : ℕ
  pub cs : ℕ
  pub ss : ℕ
  pub ds : ℕ
  pub fs : ℕ
  pub gs : ℕ
  pub ldt_segment_selector : ℕ
  pub debug_trap : ℕ
  pub io_map_base_address : ℕ

abbrev user_cs : ℕ
user_cs = 0x23

abbrev user_ds : ℕ
user_ds = 0x2b

abbrev user_esp : ℕ
user_esp = 0x100000 + 20 * 0x1000 - 16

abbrev initial_eflags : ℕ
initial_eflags = 0x200

-- The segment and the task register. Every field is set; INITIAL_ESP is the end of the stack of the
-- second structure of `task`.
pub set_tss : ℕ → Tss × ℕ
set_tss task = (
  record {
    previous_task_link = 0;
    esp0 = task + 4096 + 4096;
    ss0 = kernel_ds;
    esp1 = 0;
    ss1 = 0;
    esp2 = 0;
    ss2 = 0;
    cr3 = 0;
    eip = 0;
    e_flags = initial_eflags;
    eax = 0;
    ecx = 0;
    edx = 0;
    ebx = 0;
    esp = user_esp;
    ebp = user_esp;
    esi = 0;
    edi = 0;
    es = user_ds;
    cs = user_cs;
    ss = user_ds;
    ds = user_ds;
    fs = 0;
    gs = 0;
    ldt_segment_selector = kernel_tss;
    debug_trap = 0;
    io_map_base_address = 0;
  },
  kernel_tss,
)

-- The base that the processor reads from a descriptor, and the descriptor of a selector.
abbrev pub base_of : Descriptor → ℕ
base_of d = d.low_base + d.mid_base * 2 ^ 16 + d.high_base * 2 ^ 24

abbrev pub selected : (ℕ → Descriptor) → ℕ → Descriptor
selected gdt selector = gdt (selector / 8)

-- The descriptors `gdt'`, their register `r` and the task register, for a segment at `tss`.
pub record IsReady (tss : ℕ) (gdt gdt' : ℕ → Descriptor) (r : Register) (task_register : ℕ)
    : Type 0 where
  pub found : base_of (selected gdt' task_register) ≡ tss
  pub inside : task_register + 8 ≤ r.limit
  pub limit_kept : (selected gdt' task_register).limit ≡ (selected gdt task_register).limit
  pub flags_kept :
      ((selected gdt' task_register).flags1 ≡ (selected gdt task_register).flags1)
      × ((selected gdt' task_register).flags2 ≡ (selected gdt task_register).flags2)
  pub others : (i : ℕ) → i ≢ task_register / 8 → gdt' i ≡ gdt i

-- After setGdt and setTSS, for a task state segment at a 32-bit address: the selector in the task
-- register is within the descriptor table, and the base in the descriptor that it selects, put
-- together from its three parts, is the address of the segment; that descriptor's limit and flags
-- and all other descriptors are as before.
pub set_gdt-IsReady :
    (tss task : ℕ) (gdt : ℕ → Descriptor)
    → tss < 2 ^ 32
    → IsReady tss gdt (set_gdt tss gdt).0 (set_gdt tss gdt).1 (set_tss task).1
unfolding set_gdt set_tss
set_gdt-IsReady tss task gdt word = record {
  found = omega arith;
  inside = omega arith;
  limit_kept = refl;
  flags_kept = (refl, refl);
  others = λ i ne. ground arith;
}
