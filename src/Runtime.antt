-- ===== src/Runtime.antt =====
-- The runtime layer: crates/idr-runtime/src.
pub mod Orchestrator
