-- ===== src/Tests.antt =====
-- Runs of the modelled code on small inputs.
mod Quic
mod Hpack
mod Qpack
mod Http3
mod Blocked
mod Encoder
mod Instruction
mod Settings
