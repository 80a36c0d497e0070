-- ===== src/GraphPanel.antt =====
-- The panel of the graph view: selecting vertices with the mouse
-- (src/main/resources/web-data/js/graph.js).
pub mod Selection
pub mod Modes
pub mod Counts
pub mod Controls
pub mod Exposition
mod Examples
mod Scenarios
