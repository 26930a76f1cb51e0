-- ===== src/Phase2.antt =====
-- so2_old/E1_E2/zeos: the kernel of the second phase, with processes and a scheduler.
pub mod Block
pub mod Boot
pub mod Exit
pub mod Fork
pub mod Interrupt
pub mod Kernel
pub mod Sched
pub mod Segments
pub mod Space
pub mod Unblock
pub mod Write
