-- ===== src/BreakConditions.antt =====
-- The BreakConditions module: conditions at which the computation stops
-- (src/main/resources/web-data/js/breakconditions.js).
pub mod Names
pub mod Form
pub mod Conditions
pub mod Controls
mod Examples
