-- ===== src/Services/Grader.antt =====
-- services/grader.py.
pub mod Values
pub mod Single
pub mod Props
pub mod Legs
pub mod Game
pub mod Manual
pub mod Commits
pub mod Decided
pub mod Reached
pub mod Cleared
pub mod Aborts
pub mod ByHand
