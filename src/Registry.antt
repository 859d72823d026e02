-- ===== src/Registry.antt =====
-- research/strategy_registry.py: the registry of strategies, its state machine, and what follows for
-- every history of calls.
pub mod Status
pub mod Table
pub mod Operations
pub mod Histories
pub mod Replay
pub mod Moves
pub mod Accounts
pub mod Families
