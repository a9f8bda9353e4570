-- ===== src/Tests.antt =====
-- The theorems at concrete inputs, with fixed-point numbers for Python's floats.
pub mod Data
pub mod Markets
pub mod Parlays
pub mod Stored
pub mod Grader
pub mod Placement
pub mod Pages
pub mod Analytics
pub mod Loops
pub mod Requests
