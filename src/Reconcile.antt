-- ===== src/Reconcile.antt =====
-- agents/operations/reconciliation_agent: the broker's orders against the stored trail.
pub mod Compare
pub mod Clean
pub mod Tracker
