-- ===== src/Graph.antt =====
-- The graph view of the console.
pub mod Types
pub mod Index
pub mod Compact
pub mod VertexLoops
pub mod EdgeLoops
pub mod Canvas
pub mod Storage
pub mod Pointer
pub mod Queries
pub mod Design
pub mod Message
pub mod Exposed
pub mod Session
pub mod Status
pub mod Examples
mod Scenarios
