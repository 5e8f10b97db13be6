-- ===== src/Memory.antt =====
-- The Kernel Memory module (kernel_memory/): free holes, segments, processes, Memory Sticks.
pub mod Types
pub mod Holes
pub mod State
pub mod Processes
pub mod Segments
pub mod Sticks
pub mod Contexts
pub mod Transfer
pub mod Compaction
pub mod Suspension
pub mod Swap
mod Tests
