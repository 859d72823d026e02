-- ===== src/PreTrade.antt =====
-- risk_compliance: the gates between an intent and an approved order.
pub mod Policy
pub mod Sizes
pub mod Tier3
pub mod RateLimit
pub mod Pipeline
pub mod Gates
