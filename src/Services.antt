-- ===== src/Services.antt =====
-- services/: what the requests, the events and the poller run.
pub mod Action
pub mod Grader
pub mod Bets
pub mod Poller
pub mod Bankroll
pub mod Health
