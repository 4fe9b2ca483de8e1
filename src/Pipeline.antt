-- ===== src/Pipeline.antt =====
-- orchestrator/pipeline.py: the incident state machine.
pub mod Stage
pub mod Incident
pub mod Decide
pub mod Diagram
pub mod Lifecycle
pub mod Resolution
pub mod Decisions
mod Examples
