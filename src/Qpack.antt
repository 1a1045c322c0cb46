-- ===== src/Qpack.antt =====
-- src/qpack: header compression for HTTP/3.
pub mod Table
pub mod Blocked
pub mod Integer
pub mod Instruction
pub mod Encoder
pub mod Decoder
