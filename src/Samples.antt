-- ===== src/Samples.antt =====
-- Runs of the definitions, and the theorems at concrete inputs.
pub mod Core
pub mod Counts
pub mod Limits
pub mod Wire
pub mod Talks
pub mod Servers
pub mod Runs
pub mod Clocks
