-- ===== src/Tests.antt =====
-- The theorems at concrete inputs.
mod Samples
mod Routing
mod Parts
mod Search
mod Serving
mod Documents
mod Files
mod Limits
