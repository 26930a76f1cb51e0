-- ===== src/Paging/Frames.antt =====
-- so2_old/E1_E2/zeos/mm.c: the byte map of physical frames, and its allocator.
pub mod Alloc
use fib_so.Prelude.{ℕ, zero, suc, ◌+◌, Bool, ◌&&◌, ◌==◌, ltb, if◌then◌else◌, update}
use fib_so.Prelude.Int.{ℤ, pos, negsuc}

-- `phys_mem`, indexed by frame number.
abbrev pub PhysMem : Type 0
PhysMem = ℕ → ℕ

abbrev pub free_mark : ℕ
free_mark = 0

abbrev pub used_mark : ℕ
used_mark = 1

abbrev pub total_pages : ℕ
total_pages = 1024

abbrev pub num_pag_kernel : ℕ
num_pag_kernel = 256

-- `for (i = i; i < i + n; i++) phys_mem[i] = mark;`
mark_range : ℕ → ℕ → ℕ → PhysMem → PhysMem
mark_range zero i mark m = m
mark_range (suc n) i mark m = mark_range n (i + 1) mark (update m i mark)

pub init_frames : PhysMem → PhysMem
init_frames m = mark_range num_pag_kernel 0 used_mark (mark_range total_pages 0 free_mark m)

-- The loop of `alloc_frame` from `i` on; the fuel is the rounds left, and never runs out before
-- `i` reaches the end (`Alloc`).
unfoldable pub alloc_from : ℕ → ℕ → PhysMem → ℤ × PhysMem
alloc_from zero i m = (negsuc 0, m)
alloc_from (suc k) i m =
    let rest = alloc_from k (i + 2) m in
    if ltb i total_pages
    then (if m i == free_mark then (pos i, update m i used_mark) else rest)
    else (negsuc 0, m)

unfoldable pub alloc_frame : PhysMem → ℤ × PhysMem
unfolding alloc_from
alloc_frame m = alloc_from 385 num_pag_kernel m

unfoldable pub free_frame : ℕ → PhysMem → PhysMem
free_frame frame m =
    if ltb num_pag_kernel frame && ltb frame total_pages then update m frame free_mark else m
