-- ===== src/Sse.antt =====
-- silent/src/sse: server-sent events and the stream that keeps a connection alive.
pub mod Event
pub mod KeepAlive
