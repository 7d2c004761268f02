-- ===== src/Tests.antt =====
-- A small fleet on the reference implementation of the tree, and the properties on it.
pub mod Fixture
mod Managers
mod Battle
mod Vessels
mod Matches
mod Frames
mod Orders
mod Serving
