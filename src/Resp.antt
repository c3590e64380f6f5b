-- ===== src/Resp.antt =====
-- src/resp: the values of the protocol, the parser, the frame measurer and the command writer.
pub mod Types
pub mod Line
pub mod Tag
pub mod Parser
pub mod Frame
pub mod Writer
pub mod Grammar
pub mod Tests
