-- ===== src/Events.antt =====
-- events/: the subscriber of game.completed.
pub mod Subscriber
