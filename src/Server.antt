-- ===== src/Server.antt =====
-- silent/src/server: the accept loop of a `NetServer`, and a request over HTTP/3.
pub mod Net
pub mod Http3
