-- ===== src/Book/Matching.antt =====
-- include/hyperliquid/order_book.h: `match_against_side` and `check_fok_liquidity`. The template
-- parameter IsBid is the side that is matched against.
use hyperliquid_matching_eng.Base.{
  ℕ, zero, suc, ◌+◌, ◌-◌, Bool, true, false, not, ◌&&◌, ◌||◌, List, [], ◌∷◌, ◌++◌, Option, none,
  some, ◌==◌, ltb, if◌then◌else◌, get_elem?, set, length, ◌>>=◌,
}
use hyperliquid_matching_eng.Base.Int.{◌+ℤ◌, ◌-ℤ◌, ltb_ℤ, leb_ℤ, min_ℤ, 0ℤ}
use hyperliquid_matching_eng.Types.{
  OrderId, UserId, SymbolId, Tick, Quantity, Timestamp, Side, bid, ask, empty_bid, empty_ask,
}
use hyperliquid_matching_eng.Command.{TradeEvent, AnyEvent, trade}
use hyperliquid_matching_eng.Order.{Order, LevelFifo, is_empty, erase, reduce_qty}
use hyperliquid_matching_eng.PriceLevels.{
  PriceLevels, get_level, has_level, is_valid_price, best_level_ptr,
}
use hyperliquid_matching_eng.SlabPool
use hyperliquid_matching_eng.SlabPool.{SlabPool}
use hyperliquid_matching_eng.FlatMap
use hyperliquid_matching_eng.FlatMap.{FlatMap}
use hyperliquid_matching_eng.Book.State.{
  OrderEntry, OrderBook, levels_of, with_levels, best_of, empty_of, refresh_best_after_depletion,
}

-- What the loop over a level's makers reads and does not change.
pub record Taker : Type 0 where
  pub id : OrderId
  pub user : UserId
  pub ts : Timestamp
  pub enable_stp : Bool
  pub symbol_id : SymbolId
  pub price : Tick
  pub on_trade : Bool

-- What it changes: the level, the members of the book, `qty` and `total_filled`.
pub record Fill : Type 0 where
  pub level : LevelFifo
  pub order_pool : SlabPool
  pub id_index : FlatMap OrderEntry
  pub events : List AnyEvent
  pub qty : Quantity
  pub total_filled : Quantity

abbrev pub skips : Taker → Order → Bool
skips t maker = t.enable_stp && maker.user == t.user

abbrev pub trade_of : Taker → Order → Quantity → TradeEvent
trade_of t maker match_qty = record {
  ts = t.ts;
  taker_id = t.id;
  maker_id = maker.id;
  symbol_id = t.symbol_id;
  price_ticks = t.price;
  qty = match_qty;
}

-- The trade of the taker with one maker: the event, the two quantities, and the maker's node.
unfoldable pub trade_with : Taker → Order → Fill → Option Fill
trade_with t maker f = do
  let match_qty = min_ℤ f.qty maker.qty
  let traded = record f {
    events = if t.on_trade then f.events ++ trade (trade_of t maker match_qty) ∷ [] else f.events;
    qty = f.qty -ℤ match_qty;
    total_filled = f.total_filled +ℤ match_qty;
  }
  if leb_ℤ maker.qty match_qty
      then (do
        id_index ← FlatMap.erase f.id_index maker.id
        some (record traded {
          level = erase f.level maker;
          id_index = id_index;
          order_pool = SlabPool.free f.order_pool maker.addr;
        }))
      else some (record traded { level = reduce_qty f.level maker match_qty })

-- `while (maker && qty > 0)`, over the makers from `maker` on. The links behind the current maker
-- are not changed by its trade, so the list is the level's orders at the start.
unfoldable pub fill_level : Taker → List Order → Fill → Option Fill
unfolding trade_with
fill_level t [] f = some f
fill_level t (maker ∷ rest) f = elim (ltb_ℤ 0ℤ f.qty) [
  | true ↦ elim (skips t maker) [
    | true ↦ fill_level t rest f
    | false ↦ trade_with t maker f >>= fill_level t rest
  ]
  | false ↦ some f
]

-- The price of the best level is outside the taker's limit.
abbrev pub past_limit : Side → Tick → Tick → Bool
past_limit bid best_price px_limit = ltb best_price px_limit
past_limit ask best_price px_limit = ltb px_limit best_price

-- What a call of `match_against_side` is given beside the quantity.
pub record Incoming : Type 0 where
  pub px_limit : Tick
  pub taker_id : OrderId
  pub taker_user : UserId
  pub ts : Timestamp
  pub enable_stp : Bool

abbrev pub taker_at : Incoming → OrderBook → Tick → Taker
taker_at c b price = record {
  id = c.taker_id;
  user = c.taker_user;
  ts = c.ts;
  enable_stp = c.enable_stp;
  symbol_id = b.symbol_id;
  price = price;
  on_trade = b.on_trade;
}

abbrev pub start_fill : LevelFifo → Quantity → Quantity → OrderBook → Fill
start_fill level qty total_filled b = record {
  level = level;
  order_pool = b.order_pool;
  id_index = b.id_index;
  events = b.events;
  qty = qty;
  total_filled = total_filled;
}

-- The book after the level at index `i` of side `s` has been filled.
abbrev pub after_fill : Side → ℕ → Fill → OrderBook → OrderBook
after_fill s i f b =
    with_levels s (record p { levels = set p.levels i f.level })
      (record b { order_pool = f.order_pool; id_index = f.id_index; events = f.events })
  where
    p : PriceLevels
    p = levels_of s b

-- The body of the outer loop: `inl` is its end, `inr` another round.
pub data Round : Type 0 where
  done again : Quantity → Quantity → OrderBook → Round

unfoldable pub match_level : Side → Incoming → Quantity → Quantity → ℕ → OrderBook → Option Round
match_level s c qty total_filled i b = do
  level ← get_elem? (levels_of s b).levels i
  let best_price = best_of s (levels_of s b)
  if is_empty level || past_limit s best_price c.px_limit
      then some (done qty total_filled b)
      else (do
        f ← fill_level (taker_at c b best_price) level.orders (start_fill level qty total_filled b)
        let filled = after_fill s i f b
        some (
            if is_empty f.level
            then again f.qty f.total_filled (refresh_best_after_depletion s filled)
            else done f.qty f.total_filled filled))

unfoldable pub match_round : Side → Incoming → Quantity → Quantity → OrderBook → Option Round
match_round s c qty total_filled b =
    if ltb_ℤ 0ℤ qty
    then elim (best_level_ptr (levels_of s b) s) [
      | none ↦ some (done qty total_filled b)
      | some i ↦ match_level s c qty total_filled i b
    ]
    else some (done qty total_filled b)

-- `while (qty > 0)` on fuel; `none` is a fault, or fuel that ran out.
unfoldable pub match_loop :
    Side → Incoming → ℕ → Quantity → Quantity → OrderBook → Option (Quantity × OrderBook)
match_loop s c zero qty total_filled b = none
match_loop s c (suc fuel) qty total_filled b = elim (match_round s c qty total_filled b) [
  | none ↦ none
  | some (done q filled b') ↦ some (filled, b')
  | some (again q filled b') ↦ match_loop s c fuel q filled b'
]

-- Each round but the last empties a level, and the best price moves over the array.
unfoldable pub match_against_side :
    Side → Incoming → Quantity → OrderBook → Option (Quantity × OrderBook)
match_against_side s c qty b = match_loop s c (length (levels_of s b).levels + 1) qty 0ℤ b

abbrev pub max_steps : ℕ
max_steps = 10000

-- `if (has_level(px)) available += get_level(px).total_qty`
unfoldable pub add_level : PriceLevels → Tick → Quantity → Quantity
add_level p px available =
    if has_level p px
    then elim (get_level p px) [ none ↦ available | some l ↦ available +ℤ l.total_qty ]
    else available

-- The tests that end the loop of `check_fok_liquidity` at a price.
abbrev pub walk_ends : Side → PriceLevels → Tick → Tick → Bool
walk_ends ask p px_limit px = ltb px_limit px || px == empty_ask || not (is_valid_price p px)
walk_ends bid p px_limit px = ltb px px_limit || px == empty_bid || not (is_valid_price p px)

-- The asks are walked upwards, the bids downwards. A step down starts above EMPTY_BID.
abbrev pub walk_step : Side → Tick → Tick
walk_step ask px = px + 1
walk_step bid px = px - 1

-- The loop itself, with what is left of MAX_STEPS.
unfoldable pub walk : Side → PriceLevels → Quantity → Tick → ℕ → Tick → Quantity → Quantity
unfolding add_level
walk s p qty px_limit zero px available = available
walk s p qty px_limit (suc steps) px available = elim (ltb_ℤ available qty) [
  | false ↦ available
  | true ↦ elim (walk_ends s p px_limit px) [
    | true ↦ available
    | false ↦ walk s p qty px_limit steps (walk_step s px) (add_level p px available)
  ]
]

-- `s` is the side that would be matched against, the opposite of the taker's.
unfoldable pub check_fok_liquidity : Side → Quantity → Tick → OrderBook → Bool
unfolding walk
check_fok_liquidity s qty px_limit b =
    let p = levels_of s b in
    let best_price = best_of s p in
    if best_price == empty_of s
    then false
    else if past_limit s best_price px_limit
    then false
    else leb_ℤ qty (walk s p qty px_limit max_steps best_price 0ℤ)
