-- ===== src/Tests.antt =====
-- Concrete libraries and inputs, and the theorems at these inputs.
pub mod JsonValue
pub mod Sample
pub mod Inputs
pub mod Tasks
pub mod Lifecycle
pub mod Processing
pub mod Starting
pub mod Containers
pub mod Queries
pub mod Loading
pub mod Options
pub mod Configuring
pub mod Running
pub mod Daemonizing
