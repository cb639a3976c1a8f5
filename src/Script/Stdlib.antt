-- ===== src/Script/Stdlib.antt =====
-- src/script/stdlib.rs: the functions that scripts call, and the state that they keep.
pub mod Arguments
pub mod Limiting
pub mod Caching
pub mod Breaking
pub mod Messages
pub mod Balancing
pub mod Calls
pub mod Starting
pub mod Administering
