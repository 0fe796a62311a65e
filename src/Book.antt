-- ===== src/Book.antt =====
-- include/hyperliquid/order_book.h: `OrderBook<PriceLevelsArray>`. The children hold the handlers
-- (State, Matching, Submit, Cancel) and what is proved of them.
pub mod State
pub mod Matching
pub mod Consume
pub mod Trading
pub mod Fills
pub mod Search
pub mod Sides
pub mod Matched
pub mod Filled
pub mod Filling
pub mod Rounds
pub mod MatchLoop
pub mod Takers
pub mod Liquidity
pub mod Erasing
pub mod Without
pub mod Cancels
pub mod Joining
pub mod Resting
pub mod Sound
pub mod Opening
pub mod Cancelled
pub mod Limits
pub mod InPlace
pub mod Modifies
pub mod Uncrossed
pub mod Crossing
pub mod Submit
pub mod Cancel
