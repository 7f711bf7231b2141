-- ===== src/Middleware.antt =====
-- The middleware (lib/middleware) between the gateway and the plugins.
pub mod Pool
pub mod Dispatch
pub mod Verify
pub mod Arguments
mod Tests
