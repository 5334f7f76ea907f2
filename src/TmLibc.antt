-- ===== src/TmLibc.antt =====
-- srcs/tmLibc: the string and formatting functions.
pub mod Str
pub mod Snprintf
