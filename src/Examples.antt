-- ===== src/Examples.antt =====
-- Concrete data, and the theorems applied to it.
mod Numbers
mod Stores
mod Research
mod Gates
mod Operations
mod Officer
mod Sizes
mod Clusters
mod Approvals
mod Sessions
mod Messages
mod Orders
mod Exits
mod Phases
