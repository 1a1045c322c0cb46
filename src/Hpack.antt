-- ===== src/Hpack.antt =====
-- src/http2/hpack: header compression for HTTP/2.
pub mod Integer
pub mod Table
