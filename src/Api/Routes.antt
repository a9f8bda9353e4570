-- ===== src/Api/Routes.antt =====
-- api/routes/: the handlers, without the HTTP around them.
pub mod Bets
pub mod Performance
pub mod Placement
pub mod Grading
pub mod Bankroll
