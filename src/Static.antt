-- ===== src/Static.antt =====
-- silent/src/handler/static: what of it does not read files.
pub mod Paths
pub mod Html
pub mod Compression
