-- ===== src/Server.antt =====
-- src/server.rs: what is done with a connection, and the threads that do it.
pub mod Http1
pub mod Workers
pub mod Streams
