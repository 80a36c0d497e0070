-- ===== src/State.antt =====
-- The State module: the state of the computation and its controls
-- (src/main/resources/web-data/js/state.js).
pub mod Types
pub mod Handler
mod Examples
