-- ===== src/Scheduler.antt =====
-- kernel_scheduler/src: the Kernel Scheduler.
pub mod Types
pub mod Queues
pub mod Ready
pub mod Transitions
pub mod Finish
pub mod Priority
pub mod Mutexes
pub mod Reach
mod Tests
