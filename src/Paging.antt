-- ===== src/Paging.antt =====
-- so2_old/E1_E2/zeos/mm.c: page table entries, page tables and the byte map of physical frames.
pub mod Entry
pub mod Frames
pub mod Table
