-- ===== src/Tests.antt =====
-- Runs at concrete inputs, and the theorems at inputs that meet their hypotheses.
pub mod Lab
pub mod Bundle
pub mod Fetching
pub mod Overlapping
pub mod Admin
pub mod Pages
pub mod Serving
