-- ===== src/AutoCode.antt =====
-- srcs/autoCode: the generator that runs on the build host.
pub mod Tokenizer
pub mod AddModule
pub mod Initrc
pub mod ParseTag
pub mod GlobalError
