-- ===== src/Quic.antt =====
-- src/quic: the wire formats of QUIC.
pub mod Varint
