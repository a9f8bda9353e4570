-- ===== src/Services/Bets.antt =====
-- services/bets.py.
pub mod Odds
pub mod Legs
pub mod Price
pub mod Place
pub mod Games
pub mod Funded
pub mod Chosen
pub mod Distinct
pub mod Ticket
pub mod LegPrices
pub mod Remaps
pub mod Parlay
pub mod Committed
pub mod Starts
pub mod Scheduled
