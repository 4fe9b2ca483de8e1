-- ===== src/Engine.antt =====
-- fastapi_alertengine/engine.py: the engine of the SDK.
pub mod Breaker
pub mod Queue
pub mod Buffer
pub mod Percentile
pub mod Aggregate
pub mod Conserved
pub mod Rows
pub mod States
mod Examples
mod AggregateExamples
