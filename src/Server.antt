-- ===== src/Server.antt =====
-- src/server.c: the exchange. Its state and what it does with it, handler by handler.
pub mod State
pub mod Reasons
pub mod Money
pub mod Account
pub mod Checks
pub mod Replies
pub mod Stops
pub mod Auction
pub mod Job
pub mod Work
pub mod Billing
pub mod Session
pub mod Pipeline
