-- ===== src/Loop.antt =====
-- orchestrator/loop.py: one tick of the orchestrator for one tenant.
pub mod Step
pub mod Services
pub mod Actions
pub mod Tenant
pub mod Ensures
pub mod Safety
pub mod Process
pub mod Guarantees
pub mod Traces
pub mod Opening
pub mod Serving
mod Examples
