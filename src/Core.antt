-- ===== src/Core.antt =====
-- core/: the pure domain logic.
pub mod Errors
pub mod Settlement
pub mod Grading
pub mod Parlay
pub mod Odds
pub mod Clv
pub mod Slug
pub mod Props
pub mod Performance
