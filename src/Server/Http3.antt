-- ===== src/Server/Http3.antt =====
-- silent/src/server/quic/service.rs: a request over HTTP/3, from the reading of its body to the end
-- of its answer.
pub mod Body
pub mod Delivery
pub mod Limit
pub mod Send
pub mod Chunks
pub mod Answer
