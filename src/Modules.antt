-- ===== src/Modules.antt =====
-- modules/: the modules that the agent itself implements.
pub mod Echo
pub mod Ping
pub mod Status
