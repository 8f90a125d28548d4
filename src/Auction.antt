-- ===== src/Auction.antt =====
-- The auction house: src/auction-house/auction-house.service.ts and src/utils/auction-house.ts, and
-- its events in src/webhooks/helius/helius.service.ts.
pub mod Model
pub mod Orders
pub mod Bidding
pub mod Events
pub mod Trading
mod Tests
