-- ===== src/Matching.antt =====
-- market_server/matching_engine: the order book of one asset and the engine that matches orders.
pub mod Level
pub mod Links
pub mod Book
pub mod Resting
pub mod BidAsk
mod Tests
