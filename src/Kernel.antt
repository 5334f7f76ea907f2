-- ===== src/Kernel.antt =====
-- srcs/system/sysCore: the thread database and the round-robin scheduler.
pub mod Threads
pub mod StackDepth
pub mod Scheduler
pub mod Samples
