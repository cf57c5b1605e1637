-- ===== src/Faults.antt =====
-- The PostgreSQL fault of scripts/workshop.py: the network rule that the operator's tool sets.
pub mod Rule
pub mod Command
pub mod Desk
pub mod Actions
pub mod Verified
pub mod Correlated
pub mod Reports
pub mod Outcome
pub mod Confirmed
pub mod Partial
mod Tests
