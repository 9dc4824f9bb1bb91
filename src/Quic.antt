-- ===== src/Quic.antt =====
-- silent/src/server/quic: the parts of it that do not drive a connection.
pub mod Core
