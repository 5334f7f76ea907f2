-- ===== src/SysCall.antt =====
-- srcs/system/sysCall: the checked boundary between services or tasks and the kernel.
pub mod Threads
pub mod Drivers
pub mod Console
pub mod Scan
