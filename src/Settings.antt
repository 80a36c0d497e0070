-- ===== src/Settings.antt =====
-- The settings: what the user changed, in the hash of the page's address, over the defaults of the
-- modules (src/main/resources/web-data/js/main.js).
pub mod Store
pub mod Lookup
pub mod Hidden
pub mod Hiding
pub mod RoundTrip
pub mod Hash
mod Examples
