-- ===== src/Preflight.antt =====
-- The one-time hardware preflight of src/strategy.rs: the choice of a configuration, the functional
-- probe, and the process-wide cell that keeps its result.
pub mod Config
pub mod Probe
pub mod Producer
pub mod Cell
