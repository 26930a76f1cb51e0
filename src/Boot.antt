-- ===== src/Boot.antt =====
-- zeos/mm.c and sched.c: frames, page tables and the first two processes of the current kernel.
pub mod Frames
pub mod Process
pub mod Tables
use fib_so.Prelude.{ℕ, zero, suc, ◌+◌, ◌-◌, ◌*◌, ◌/◌, ◌%◌, ◌^◌, ◌==◌, ltb, if◌then◌else◌, update}
use fib_so.Prelude.Int.{ℤ, pos, negsuc}
use fib_so.Paging.Entry.{pbase_addr, set_present, set_rw, set_user, set_pbase_addr}
use fib_so.Paging.Frames.{PhysMem, free_mark, used_mark, total_pages}

-- The byte map, the memory as 32-bit words (`words i` at the address 4 * i, paging being the
-- identity on what is used here), and the limits of the kernel's frames.
pub record Memory : Type 0 where
  pub phys : PhysMem
  pub words : ℕ → ℕ
  pub first_kernel : ℕ
  pub last_kernel : ℕ

-- `for (i = i; i < i + n; i++) phys_mem[i] = mark;`
mark_range : ℕ → ℕ → ℕ → PhysMem → PhysMem
mark_range zero i mark m = m
mark_range (suc n) i mark m = mark_range n (i + 1) mark (update m i mark)

pub init_frames : Memory → Memory
init_frames s =
    let m1 : PhysMem = mark_range total_pages 0 free_mark s.phys in
    let m2 : PhysMem = mark_range (s.last_kernel - s.first_kernel) s.first_kernel used_mark m1 in
    record s { phys = update (update m2 0x90 used_mark) 0xb8 used_mark }

-- With the sizes of system and user code, which the boot sector leaves in memory.
pub init_mm : ℕ → ℕ → Memory → Memory
init_mm sys_size usr_size s = init_frames (record s {
  first_kernel = 0x10000 / 4096;
  last_kernel = (0x10000 + sys_size + usr_size) % 2 ^ 32 / 4096 + 1;
})

-- The loop of `alloc_frame` from `i` on, with the rounds left.
pub alloc_from : ℕ → ℕ → PhysMem → ℤ × PhysMem
alloc_from zero i m = (negsuc 0, m)
alloc_from (suc k) i m =
    let rest = alloc_from k (i + 1) m in
    if m i == free_mark then (pos i, update m i used_mark) else rest

pub alloc_frame : Memory → ℤ × Memory
alloc_frame s =
    let r : ℤ × PhysMem = alloc_from (total_pages - s.last_kernel) s.last_kernel s.phys in
    (r.0, record s { phys = r.1 })

pub free_frame : ℕ → Memory → Memory
free_frame frame s =
    if ltb frame total_pages then record s { phys = update s.phys frame free_mark } else s

-- `PT[page].f = v`, for the table whose first word is `pt`.
abbrev pub at_entry : ℕ → ℕ → (ℕ → ℕ) → Memory → Memory
at_entry pt page f s = record s { words = update s.words (pt + page) (f (s.words (pt + page))) }

pub clear_from : ℕ → ℕ → ℕ → Memory → Memory
clear_from zero i pt s = s
clear_from (suc n) i pt s = clear_from n (i + 1) pt (at_entry pt i (λ e. 0) s)

pub clear_page_table : ℕ → Memory → Memory
clear_page_table pt s = clear_from total_pages 0 pt s

unfoldable pub set_ss_pag : ℕ → ℕ → ℕ → ℕ → Memory → Memory
set_ss_pag pt page frame user s =
    let s1 : Memory = at_entry pt page (λ e. 0) s in
    let s2 : Memory = at_entry pt page (λ e. set_pbase_addr e frame) s1 in
    let s3 : Memory = at_entry pt page (λ e. set_user e user) s2 in
    let s4 : Memory = at_entry pt page (λ e. set_rw e 1) s3 in
    at_entry pt page (λ e. set_present e 1) s4

pub del_ss_pag : ℕ → ℕ → Memory → Memory
del_ss_pag pt logical_page s = at_entry pt logical_page (λ e. 0) s

pub get_frame : ℕ → ℕ → Memory → ℕ
get_frame pt logical_page s = pbase_addr (s.words (pt + logical_page))

-- The pages of the kernel from `i` on, each on the frame of the same number.
pub kernel_from : ℕ → ℕ → ℕ → Memory → Memory
kernel_from zero i pt s = s
kernel_from (suc n) i pt s = kernel_from n (i + 1) pt (set_ss_pag pt i i 0 s)

-- What it prints on the way is left out.
pub set_kernel_pages : ℕ → Memory → Memory
set_kernel_pages pt s =
    let s1 : Memory = kernel_from (s.last_kernel - s.first_kernel) s.first_kernel pt s in
    set_ss_pag pt 0xb8 0xb8 0 (set_ss_pag pt 0x90 0x90 0 s1)

-- An int as an `unsigned`.
abbrev pub unsigned : ℤ → ℕ
unsigned (pos n) = n
unsigned (negsuc n) = 2 ^ 32 - (n + 1)

-- The `n` pages of code from entry `page` on.
code_from : ℕ → ℕ → ℕ → Memory → Memory
code_from zero page pt s = s
code_from (suc n) page pt s =
    let a : ℤ × Memory = alloc_frame s in
    let s1 : Memory = at_entry pt page (λ e. 0) a.1 in
    let s2 : Memory = at_entry pt page (λ e. set_pbase_addr e (unsigned a.0)) s1 in
    let s3 : Memory = at_entry pt page (λ e. set_user e 1) s2 in
    code_from n (page + 1) pt (at_entry pt page (λ e. set_present e 1) s3)

data_from : ℕ → ℕ → ℕ → Memory → Memory
data_from zero page pt s = s
data_from (suc n) page pt s =
    let a : ℤ × Memory = alloc_frame s in
    let s1 : Memory = at_entry pt page (λ e. 0) a.1 in
    let s2 : Memory = at_entry pt page (λ e. set_pbase_addr e (unsigned a.0)) s1 in
    let s3 : Memory = at_entry pt page (λ e. set_user e 1) s2 in
    let s4 : Memory = at_entry pt page (λ e. set_rw e 1) s3 in
    data_from n (page + 1) pt (at_entry pt page (λ e. set_present e 1) s4)

pub set_user_pages : ℕ → Memory → Memory
set_user_pages pt s = data_from 20 0 pt (code_from 8 20 pt s)

-- The loop indexes the table with the logical page, 1024 + `i`, and not with its place in the table.
pub free_from : ℕ → ℕ → ℕ → Memory → Memory
free_from zero i pt s = s
free_from (suc n) i pt s =
    let s1 : Memory = free_frame (pbase_addr (s.words (pt + (1024 + i)))) s in
    free_from n (i + 1) pt (at_entry pt (1024 + i) (λ e. 0) s1)

pub free_user_pages : ℕ → Memory → Memory
free_user_pages pt s = free_from 20 0 pt s
