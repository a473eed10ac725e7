-- ===== src/Mikrotik.antt =====
-- addons/isp_mikrotik: routers and the client that talks to them.
pub mod Client
pub mod Commands
pub mod Handlers
pub mod Lines
pub mod Lifecycle
