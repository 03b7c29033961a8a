-- ===== src/Regression.antt =====
-- regression/custom: the tool that compares a benchmark run with a baseline.
pub mod Results
pub mod Groups
pub mod MethodIds
pub mod Versions
pub mod Table
pub mod Double
pub mod Report
pub mod Cli
pub mod Listing
mod Tests
