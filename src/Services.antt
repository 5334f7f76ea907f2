-- ===== src/Services.antt =====
-- srcs/system/services: the command line service and its commands.
pub mod ScliDate
pub mod Scli
pub mod ScliThread
pub mod System
