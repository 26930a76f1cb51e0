-- ===== src/Examples/Current.antt =====
-- The frames and the page tables of the current kernel at concrete states.
use fib_so.Prelude.{◌+◌, ◌≡◌, ◌&&◌, ltb, leb, has, if◌then◌else◌}
use fib_so.Paging.Frames.{free_mark, total_pages}
use fib_so.Boot.{Memory, free_user_pages}
use fib_so.Boot.Tables.{named, free_user_pages-behind}

-- The kernel in the frames 16 to 39, all frames marked, and every word its own address: those from
-- 52224 to 52243 name the frame 12.
abbrev memory : Memory
memory = record { phys = λ f. 1; words = λ i. i; first_kernel = 16; last_kernel = 40 }

free_user_pages-behind_example :
    ((free_user_pages 51200 memory).words 52230
      ≡ (if leb (51200 + 1024) 52230 && ltb 52230 (51200 + 1044) then 0 else 52230))
    × ((free_user_pages 51200 memory).phys 12 ≡ (
        if has 12 (named memory.words (51200 + 1024) 20) && ltb 12 total_pages
        then free_mark
        else 1))
free_user_pages-behind_example = free_user_pages-behind 51200 52230 12 memory
