-- ===== src/Book/State.antt =====
-- include/hyperliquid/order_book.h: the state of an order book, the events that it emits, and the
-- search for the next best price. An event is appended to `events` where the source calls the
-- callback; `on_trade` and `on_book_update` say whether the callback is set.
use hyperliquid_matching_eng.Base.{
  ℕ, zero, suc, ◌+◌, ◌-◌, Bool, true, List, [], ◌∷◌, ◌++◌, Option, some, ◌==◌, leb, if◌then◌else◌,
  ◌>>=◌,
}
use hyperliquid_matching_eng.Base.Int.{0ℤ}
use hyperliquid_matching_eng.Types.{
  SymbolId, Tick, Quantity, Timestamp, Side, bid, ask, PriceBand, empty_bid, empty_ask, tick,
}
use hyperliquid_matching_eng.Command.{TradeEvent, BookUpdate, AnyEvent, trade, book_update}
use hyperliquid_matching_eng.Order.{Addr}
use hyperliquid_matching_eng.PriceLevels
use hyperliquid_matching_eng.PriceLevels.{
  PriceLevels, get_level, has_level, is_valid_price, set_best_bid, set_best_ask,
}
use hyperliquid_matching_eng.SlabPool
use hyperliquid_matching_eng.SlabPool.{SlabPool}
use hyperliquid_matching_eng.FlatMap
use hyperliquid_matching_eng.FlatMap.{FlatMap}

pub record OrderEntry : Type 0 where
  pub side : Side
  pub price : Tick
  pub node : Addr

-- `clock_reads` counts the calls of `TimestampUtil::now_ns` so far.
pub record OrderBook : Type 0 where
  pub symbol_id : SymbolId
  pub bids : PriceLevels
  pub asks : PriceLevels
  pub order_pool : SlabPool
  pub id_index : FlatMap OrderEntry
  pub on_trade : Bool
  pub on_book_update : Bool
  pub events : List AnyEvent
  pub clock_reads : ℕ

-- A slot of the index whose memory is zero.
abbrev pub blank_entry : OrderEntry
blank_entry = record { side = bid; price = tick 0; node = 0 }

-- The constructor, with the callbacks that `MatchingEngine` sets afterwards. `slab_objects` is the
-- number of nodes in a slab of the pool.
unfoldable pub init : ℕ → SymbolId → PriceBand → OrderBook
init slab_objects symbol_id band = record {
  symbol_id = symbol_id;
  bids = PriceLevels.init band;
  asks = PriceLevels.init band;
  order_pool = SlabPool.init slab_objects 2;
  id_index = FlatMap.init blank_entry 8192;
  on_trade = true;
  on_book_update = true;
  events = [];
  clock_reads = 0;
}

-- `auto &levels = (side == Side::Bid) ? bids_ : asks_`, read and written back.
abbrev pub levels_of : Side → OrderBook → PriceLevels
levels_of bid b = b.bids
levels_of ask b = b.asks

abbrev pub with_levels : Side → PriceLevels → OrderBook → OrderBook
with_levels bid p b = record b { bids = p }
with_levels ask p b = record b { asks = p }

-- The best price of the levels that hold a side.
abbrev pub best_of : Side → PriceLevels → Tick
best_of bid p = p.best_bid
best_of ask p = p.best_ask

abbrev pub opposite : Side → Side
opposite bid = ask
opposite ask = bid

abbrev pub empty_of : Side → Tick
empty_of bid = empty_bid
empty_of ask = empty_ask

abbrev pub set_best : Side → PriceLevels → Tick → PriceLevels
set_best bid = set_best_bid
set_best ask = set_best_ask

unfoldable pub is_empty : OrderBook → Side → Bool
is_empty b s = best_of s (levels_of s b) == empty_of s

abbrev pub max_search : ℕ
max_search = 10000

-- The loop of `refresh_best_after_depletion` over the bids, `i` from 1 while rounds are left: the
-- price that it settles on. `-` on ticks does not stop early, since the loop ends at EMPTY_BID.
unfoldable pub search_bid : PriceLevels → Tick → ℕ → ℕ → Tick
search_bid p current zero i = empty_bid
search_bid p current (suc n) i =
    let px = current - i in
    let rest = search_bid p current n (i + 1) in
    if leb px empty_bid
    then empty_bid
    else if is_valid_price p px
    then (if has_level p px then px else rest)
    else empty_bid

-- The same loop over the asks.
unfoldable pub search_ask : PriceLevels → Tick → ℕ → ℕ → Tick
search_ask p current zero i = empty_ask
search_ask p current (suc n) i =
    let px = current + i in
    let rest = search_ask p current n (i + 1) in
    if leb empty_ask px
    then empty_ask
    else if is_valid_price p px
    then (if has_level p px then px else rest)
    else empty_ask

unfoldable pub refresh_levels : Side → PriceLevels → PriceLevels
refresh_levels bid p =
    if p.best_bid == empty_bid then p else set_best_bid p (search_bid p p.best_bid max_search 1)
refresh_levels ask p =
    if p.best_ask == empty_ask then p else set_best_ask p (search_ask p p.best_ask max_search 1)

unfoldable pub refresh_best_after_depletion : Side → OrderBook → OrderBook
refresh_best_after_depletion s b = with_levels s (refresh_levels s (levels_of s b)) b

unfoldable pub emit_trade : TradeEvent → OrderBook → OrderBook
emit_trade t b = if b.on_trade then record b { events = b.events ++ trade t ∷ [] } else b

-- The quantity at a best price, 0 for the sentinel.
unfoldable pub top_qty : Side → PriceLevels → Option Quantity
top_qty s p =
    if best_of s p == empty_of s
    then some 0ℤ
    else (do level ← get_level p (best_of s p); some level.total_qty)

-- `now_ns n` is what the n-th call of the clock returns.
module _ (now_ns : ℕ → Timestamp) where
  abbrev pub update_of : OrderBook → Quantity → Quantity → BookUpdate
  update_of b bid_qty ask_qty = record {
    ts = now_ns b.clock_reads;
    symbol_id = b.symbol_id;
    best_bid = b.bids.best_bid;
    best_ask = b.asks.best_ask;
    bid_qty = bid_qty;
    ask_qty = ask_qty;
  }

  abbrev pub announce : OrderBook → Quantity → Quantity → OrderBook
  announce b bid_qty ask_qty = record b {
    events = b.events ++ book_update (update_of b bid_qty ask_qty) ∷ [];
    clock_reads = b.clock_reads + 1;
  }

  unfoldable pub emit_book_update : OrderBook → Option OrderBook
  unfolding top_qty
  emit_book_update b =
      if b.on_book_update
      then (do
        bid_qty ← top_qty bid b.bids
        ask_qty ← top_qty ask b.asks
        some (announce b bid_qty ask_qty))
      else some b
