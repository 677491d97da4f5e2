-- ===== src/Core.antt =====
-- apps/core: the request context, phase timings and the middlewares.
pub mod Context
pub mod Middleware
pub mod Health
pub mod Metrics
pub mod Logging
