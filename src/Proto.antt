-- ===== src/Proto.antt =====
-- include/ftx/proto and src/lib/proto: the wire protocol.
pub mod Types
pub mod ErrorCode
pub mod Frame
pub mod Decoder
pub mod Cursor
pub mod Messages
