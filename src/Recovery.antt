-- ===== src/Recovery.antt =====
-- The scripts that repair what killed processes leave behind (scripts/helper/).
pub mod Rebuild
pub mod Rebuilding
pub mod Recovering
pub mod Listing
pub mod Finish
pub mod Marking
pub mod Finishing
pub mod Completing
pub mod Reclaim
pub mod Reclaiming
pub mod Oldest
mod Tests
mod ReclaimTests
mod FinishTests
