-- ===== src/Execution.antt =====
-- src/shrap/trading_floor/execution_agent.py, by what each module models.
pub mod Errors
pub mod Orders
pub mod Promises
pub mod Submission
pub mod Delivery
pub mod Passes
pub mod Pending
