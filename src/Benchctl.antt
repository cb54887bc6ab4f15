-- ===== src/Benchctl.antt =====
-- The benchmark control tool, tools/benchctl: a run switches the idle states of some CPUs off,
-- starts a workload, and puts the idle states back.
pub mod Paths
pub mod Errors
pub mod Host
pub mod Select
pub mod Runtime
pub mod Text
pub mod Journal
pub mod Inventory
pub mod Cpuidle
pub mod Receipt
pub mod Supervision
pub mod Run
pub mod Recover
pub mod Entry
pub mod Control
