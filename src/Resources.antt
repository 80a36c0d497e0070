-- ===== src/Resources.antt =====
-- The statistics and charts of the resources view
-- (src/main/resources/web-data/js/util.js, linechart.js).
pub mod Sums
pub mod Durations
pub mod Memory
pub mod Chart
pub mod Sections
pub mod Window
pub mod Registry
pub mod Info
pub mod Setup
pub mod Tables
pub mod Configuration
pub mod Updates
mod Examples
mod Scenarios
