-- ===== src/Tools.antt =====
-- What scripts/workshop.py and scripts/cohort.py share: the machine that they run on, and the
-- calls of the Azure command-line tools.
pub mod Machine
pub mod Lab
pub mod Cli
pub mod Monitoring
pub mod Steady
pub mod Removal
pub mod Retry
pub mod RetryBound
mod Tests
