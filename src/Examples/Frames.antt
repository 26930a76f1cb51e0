-- ===== src/Examples/Frames.antt =====
-- The frame allocator and the page tables at concrete maps.
use fib_so.Prelude.{◌≡◌, refl, ◌==◌, if◌then◌else◌, arith, update}
use fib_so.Paging.Frames.{PhysMem, used_mark, num_pag_kernel, alloc_frame, alloc_from, free_frame}
use fib_so.Paging.Frames.Alloc.{Search, alloc_frame-Search, free_frame-alloc_frame}

-- Frame 300 is free, and no other even one.
abbrev one_free : PhysMem
one_free f = if f == 300 then 0 else 1

abbrev all_free : PhysMem
all_free f = 0

alloc_frame-Search_example : Search num_pag_kernel one_free (alloc_frame one_free)
alloc_frame-Search_example = alloc_frame-Search one_free

free_frame-alloc_frame_example : free_frame 300 (update one_free 300 used_mark) ≡ one_free
unfolding alloc_frame alloc_from
free_frame-alloc_frame_example =
    free_frame-alloc_frame one_free (update one_free 300 used_mark) 300 refl (ground arith)
