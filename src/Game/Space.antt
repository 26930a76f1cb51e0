-- ===== src/Game/Space.antt =====
-- so2_old/GAME/zeos/sys.c: the address spaces of the processes. The loops of sys_fork and sys_exit
-- over frames and page tables; get_frame, set_ss_pag and the allocator are as in the second phase.
pub mod Alloc
pub mod Child
pub mod Copy
use fib_so.Prelude.{ℕ, zero, suc, ◌+◌, ◌/◌, Bool, true, false, update}
use fib_so.Prelude.Int.{ℤ, pos, negsuc}
use fib_so.Paging.Frames.{PhysMem, alloc_frame, free_frame}
use fib_so.Paging.Table.{PageTable, set_ss_pag, del_ss_pag, get_frame}
use fib_so.Phase2.Kernel.{Space}
use fib_so.Phase2.Space.{on_table, copy_page, share_pages}

abbrev pub num_pag_kernel : ℕ
num_pag_kernel = 256

abbrev pub num_pag_code : ℕ
num_pag_code = 8

abbrev pub num_pag_data : ℕ
num_pag_data = 20

-- `L_USER_START >> 12`: the code comes first.
abbrev pub pag_log_init_code : ℕ
pag_log_init_code = 0x100000 / 4096

abbrev pub pag_log_init_data : ℕ
pag_log_init_data = pag_log_init_code + num_pag_code

-- The frames of the `n` pages from `page` on are freed, the pages unmapped.
pub release_from : ℕ → ℕ → ℕ → Space → Space
release_from zero page d sp = sp
release_from (suc n) page d sp =
    let sp1 : Space = record sp { phys = free_frame (get_frame (sp.tables d) page) sp.phys } in
    release_from n (page + 1) d (on_table d (λ pt. del_ss_pag pt page) sp1)

-- One round for the page `pag` of the data: `next` does the rounds that follow; where there is no
-- frame left, the pages before are released.
unfoldable pub map_round : (ℕ → Space → Bool × Space) → ℕ → ℕ → Space → ℤ × PhysMem → Bool × Space
map_round next pag d sp (pos f, m) =
    next (pag + 1)
      (on_table d (λ pt. set_ss_pag pt (pag_log_init_data + pag) f) (record sp { phys = m }))
map_round next pag d sp (negsuc k, m) =
    (false, release_from pag pag_log_init_data d (record sp { phys = m }))

pub map_new : ℕ → ℕ → ℕ → Space → Bool × Space
map_new zero pag d sp = (true, sp)
map_new (suc n) pag d sp = map_round (λ pag sp. map_new n pag d sp) pag d sp (alloc_frame sp.phys)

-- The data pages of the child: whether there were frames enough.
pub map_data_pages : ℕ → Space → Bool × Space
map_data_pages d sp = map_new num_pag_data 0 d sp

-- The `n` data pages from `pag` on, copied through a page behind the parent's own.
pub copy_pages : ℕ → ℕ → ℕ → ℕ → Space → Space
copy_pages zero pag parent child sp = sp
copy_pages (suc n) pag parent child sp =
    let temp : ℕ = pag + num_pag_data in
    let f : ℕ = get_frame (sp.tables child) pag in
    let sp1 : Space = on_table parent (λ pt. set_ss_pag pt temp f) sp in
    let sp2 : Space = copy_page (sp1.tables parent) pag temp sp1 in
    copy_pages n (pag + 1) parent child (on_table parent (λ pt. del_ss_pag pt temp) sp2)

-- The system and the code of the parent, and a copy of its data.
pub copy_space : ℕ → ℕ → Space → Space
copy_space parent child sp =
    let kernel : Space = share_pages num_pag_kernel 0 parent child sp in
    let code : Space = share_pages num_pag_code pag_log_init_code parent child kernel in
    copy_pages num_pag_data pag_log_init_data parent child code
