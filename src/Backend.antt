-- ===== src/Backend.antt =====
-- src/proxy/src/backend: tenant keys, the pool manager, discovery and the routers.
pub mod Tenant
pub mod Manager
pub mod Resolver
pub mod Discovery
pub mod Router
pub mod Pool
