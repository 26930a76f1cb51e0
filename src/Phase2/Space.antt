-- ===== src/Phase2/Space.antt =====
-- so2_old/E1_E2/zeos: the address spaces of the processes. The loops of init_child_address_space
-- and sys_exit (sys.c) over frames and page tables; mm.c's page tables stand in `Space.tables`, by
-- the index of the directory that get_PT goes through.
pub mod Alloc
pub mod Child
pub mod Fill
pub mod Release
pub mod Share
use fib_so.Prelude.{
  ℕ, zero, suc, ◌+◌, ◌*◌, ◌/◌, Option, none, some, List, [], ◌∷◌, ◌++◌, update, length,
}
use fib_so.Prelude.Int.{ℤ, pos, negsuc}
use fib_so.Paging.Frames.{PhysMem, alloc_frame, free_frame}
use fib_so.Paging.Table.{PageTable, set_ss_pag, del_ss_pag, get_frame}
use fib_so.Phase2.Kernel.{Space}

abbrev pub num_pag_kernel : ℕ
num_pag_kernel = 256

abbrev pub num_pag_code : ℕ
num_pag_code = 8

abbrev pub num_pag_data : ℕ
num_pag_data = 20

-- `L_USER_START >> 12`
abbrev pub pag_log_init_data : ℕ
pag_log_init_data = 0x100000 / 4096

abbrev pub pag_log_init_code : ℕ
pag_log_init_code = pag_log_init_data + num_pag_data

-- The first page behind the process's own, where the child's pages are mapped to be filled.
abbrev pub total_space : ℕ
total_space = num_pag_kernel + num_pag_code + num_pag_data

abbrev pub on_table : ℕ → (PageTable → PageTable) → Space → Space
on_table d f sp = record sp { tables = update sp.tables d (f (sp.tables d)) }

-- `free_frame(frames[0]); free_frame(frames[1]); ...`
unfoldable pub free_frames : List ℕ → PhysMem → PhysMem
free_frames [] m = m
free_frames (f ∷ fs) m = free_frames fs (free_frame f m)

-- One round: the frames allocated so far are `new_frames`, and `next` does the rounds that follow;
-- where there is no further frame those of the rounds before are freed.
unfoldable pub alloc_round :
    (List ℕ → PhysMem → Option (List ℕ) × PhysMem)
    → List ℕ
    → ℤ × PhysMem
    → Option (List ℕ) × PhysMem
alloc_round next new_frames (pos f, m) = next (new_frames ++ f ∷ []) m
alloc_round next new_frames (negsuc n, m) = (none, free_frames new_frames m)

unfoldable pub alloc_frames : ℕ → List ℕ → PhysMem → Option (List ℕ) × PhysMem
alloc_frames zero new_frames m = (some new_frames, m)
alloc_frames (suc n) new_frames m = alloc_round (alloc_frames n) new_frames (alloc_frame m)

-- The first loop of init_child_address_space.
unfoldable pub alloc_data_frames : PhysMem → Option (List ℕ) × PhysMem
alloc_data_frames m = alloc_frames num_pag_data [] m

-- The `n` pages from `page` on get the frames that they have in the parent's table.
pub share_pages : ℕ → ℕ → ℕ → ℕ → Space → Space
share_pages zero page parent child sp = sp
share_pages (suc n) page parent child sp =
    share_pages n (page + 1) parent child
      (on_table child (λ pt. set_ss_pag pt page (get_frame (sp.tables parent) page)) sp)

-- The pages from `page` on get the frames of the list.
unfoldable pub map_pages : List ℕ → ℕ → ℕ → Space → Space
map_pages [] page child sp = sp
map_pages (f ∷ fs) page child sp =
    map_pages fs (page + 1) child (on_table child (λ pt. set_ss_pag pt page f) sp)

-- copy_data of one page to another, aligned both, through a page table: it copies the frame of the
-- one to the frame of the other (`Memory.Copy.copy_data-copied`).
abbrev pub copy_page : PageTable → ℕ → ℕ → Space → Space
copy_page pt from to sp = record sp {
  page = update sp.page (get_frame pt to) (sp.page (get_frame pt from));
}

-- Each frame of the list is mapped behind the parent's pages, filled and unmapped again.
pub fill_pages : List ℕ → ℕ → ℕ → Space → Space
fill_pages [] i parent sp = sp
fill_pages (f ∷ fs) i parent sp =
    let sp1 : Space = on_table parent (λ pt. set_ss_pag pt (total_space + i) f) sp in
    let sp2 : Space = copy_page (sp1.tables parent) (pag_log_init_data + i) (total_space + i) sp1 in
    fill_pages fs (i + 1) parent (on_table parent (λ pt. del_ss_pag pt (total_space + i)) sp2)

-- init_child_address_space from the page tables on, with the frames allocated.
pub build_child : List ℕ → ℕ → ℕ → Space → Space
build_child new_frames parent child sp =
    let kernel : Space = share_pages num_pag_kernel 0 parent child sp in
    let code : Space = share_pages num_pag_code pag_log_init_code parent child kernel in
    let mapped : Space = map_pages new_frames pag_log_init_data child code in
    fill_pages new_frames 0 parent mapped

-- The loop of sys_exit: the frames of the data pages from the `i`-th on are freed, the pages
-- unmapped.
unfoldable pub release_from : ℕ → ℕ → ℕ → Space → Space
release_from zero i d sp = sp
release_from (suc n) i d sp =
    let frame : ℕ = get_frame (sp.tables d) (pag_log_init_data + i) in
    let sp1 : Space = record sp { phys = free_frame frame sp.phys } in
    release_from n (i + 1) d (on_table d (λ pt. del_ss_pag pt (pag_log_init_data + i)) sp1)

unfoldable pub release_pages : ℕ → Space → Space
release_pages d sp = release_from num_pag_data 0 d sp
