-- ===== src/Response.antt =====
-- src/response.rs: RESP values as Python objects, in two steps over `RespValue` and in one pass over
-- the bytes of a reply.
pub mod Python
pub mod Convert
pub mod Integer
pub mod Fused
pub mod Agreement
pub mod Bounds
mod Tests
