-- ===== src/Incident.antt =====
-- The incident workflow of scripts/workshop.py: the documents of the SRE Agent, how they are
-- compared and written, and which plan an alert goes to.
pub mod Http
pub mod Match
pub mod Plan
pub mod Write
pub mod Routed
pub mod Saved
pub mod Service
pub mod Removed
pub mod Install
pub mod Installing
mod Tests
