-- ===== src/Examples.antt =====
-- Concrete inputs, and the theorems applied to them.
mod Block
mod Builder
mod Current
mod Data
mod Devices
mod Exit
mod Fork
mod Frames
mod Game
mod Lists
mod Memory
mod ProcessData
mod Processes
mod Space
mod Startup
