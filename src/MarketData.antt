-- ===== src/MarketData.antt =====
-- okx/marketdata: the order book and the messages that keep it up to date.
pub mod PriceLevels
pub mod OrderBook
pub mod Messages
pub mod Sbe
pub mod Sources
mod FeedTests
mod Tests
