-- ===== src/Script.antt =====
-- src/script: the language of .pcmod files.
pub mod Syntax
pub mod Blocks
pub mod Parser
pub mod Runtime
pub mod Stdlib
pub mod Loader
