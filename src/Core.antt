-- ===== src/Core.antt =====
-- silent/src/core, error and configs: what the other parts pass to one another.
pub mod Error
pub mod State
pub mod PathParam
pub mod Http
pub mod Next
