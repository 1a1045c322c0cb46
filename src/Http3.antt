-- ===== src/Http3.antt =====
-- src/http3: frames and the states of incoming streams.
pub mod Frame
pub mod Payload
pub mod Message
pub mod Control
pub mod Settings
