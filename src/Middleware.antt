-- ===== src/Middleware.antt =====
-- silent/src/middleware/middlewares: the middlewares that come with the framework.
pub mod Cors
pub mod Compression
pub mod RequestId
pub mod RateLimiter
