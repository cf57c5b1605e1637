-- ===== src/Cohort.antt =====
-- scripts/cohort.py: isolated workshop environments for a cohort of participants.
pub mod Model
pub mod Roster
pub mod Store
pub mod Plan
pub mod Access
pub mod Users
pub mod Environments
pub mod Preflight
pub mod Whole
pub mod Parallel
pub mod Deploy
pub mod Track
pub mod Stages
pub mod Settle
pub mod Frame
pub mod Results
pub mod Grants
pub mod Names
pub mod Rerun
pub mod Resolve
pub mod Subscriptions
pub mod Objects
pub mod Readiness
mod WholeTests
pub mod Cleanup
pub mod CleanupEnds
pub mod CleanupResults
pub mod CleanupOwn
pub mod Tests
mod CleanupTests
mod SubscriptionTests
