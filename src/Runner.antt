-- ===== src/Runner.antt =====
-- src/shrap/research/strategy_runner, by what each module models.
pub mod Cadence
pub mod Sizing
pub mod Engine
pub mod Planner
pub mod Pass
pub mod Closing
pub mod Polling
