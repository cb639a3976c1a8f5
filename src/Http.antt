-- ===== src/Http.antt =====
-- src/http: header lists, requests, responses, and the reading of one message from a stream.
pub mod Headers
pub mod Request
pub mod Response
pub mod Scan
pub mod Reader
