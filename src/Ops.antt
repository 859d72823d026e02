-- ===== src/Ops.antt =====
-- operations: health tracking, latched switches, the market's phases.
pub mod HealthState
pub mod SwitchLatch
pub mod MarketPhase
