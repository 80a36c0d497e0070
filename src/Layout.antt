-- ===== src/Layout.antt =====
-- The layout of the page: views, sections of the panels and the pop-up for messages
-- (src/main/resources/web-data/js/layout.js).
pub mod Panel
pub mod Popup
mod Examples
