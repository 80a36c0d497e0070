-- ===== src/Console.antt =====
-- The main module: the socket, the orders and the consumers (src/main/resources/web-data/js/main.js).
pub mod Orders
pub mod Dispatch
pub mod Session
pub mod Pages
mod Examples
