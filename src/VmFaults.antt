-- ===== src/VmFaults.antt =====
-- scripts/vm/faults.py: the bounded fault controls that run on the workshop VM.
pub mod Host
pub mod Units
pub mod Api
pub mod Recycle
pub mod Ends
pub mod Cli
pub mod Status
pub mod Results
pub mod Guards
pub mod Children
mod Tests
