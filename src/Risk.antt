-- ===== src/Risk.antt =====
-- risk_compliance/risk_officer: the officer's own logic.
pub mod Switches
pub mod Monitor
pub mod Exits
pub mod Exposure
pub mod Limits
pub mod Union
pub mod Clusters
pub mod Gate
pub mod Breaches
pub mod Freshness
pub mod Sizing
pub mod Officer
pub mod Sweep
