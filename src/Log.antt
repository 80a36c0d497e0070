-- ===== src/Log.antt =====
-- The Log module of the resources view (src/main/resources/web-data/js/resources-log.js).
pub mod Types
pub mod Fragments
pub mod Box
pub mod Filters
mod Examples
