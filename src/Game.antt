-- ===== src/Game.antt =====
-- so2_old/GAME/zeos: the kernel of the game, with process statistics and a keyboard buffer.
pub mod Boot
pub mod Calls
pub mod Clock
pub mod Kernel
pub mod Keyboard
pub mod Process
pub mod Reach
pub mod Sched
pub mod Space
pub mod Ticks
