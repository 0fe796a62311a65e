-- ===== src/PriceLevels.antt =====
-- include/hyperliquid/price_levels_array.h: a band of prices as an array of queues, with the best
-- price of each side remembered beside the pointer to its level. A pointer into the array is the
-- index it points to. An access that the assertion of `idx` refuses is `none`.
use hyperliquid_matching_eng.Base.{
  ℕ, ◌+◌, ◌-◌, Bool, false, not, ◌&&◌, List, [], ◌∷◌, ◌++◌, map, Option, none, some, ◌==◌, leb,
  if◌then◌else◌, get_elem?, set, replicate, ◌>>=◌,
}
use hyperliquid_matching_eng.Types.{Tick, PriceBand, Side, bid, ask, empty_bid, empty_ask}
use hyperliquid_matching_eng.Order.{Order, LevelFifo, empty_level, is_empty}

pub record PriceLevels : Type 0 where
  pub band : PriceBand
  pub levels : List LevelFifo
  pub best_bid : Tick
  pub best_ask : Tick
  pub best_bid_ptr : Option ℕ
  pub best_ask_ptr : Option ℕ

-- The constructor: `max_tick - min_tick + 1` empty levels.
unfoldable pub init : PriceBand → PriceLevels
init b = record {
  band = b;
  levels = replicate (b.max_tick + 1 - b.min_tick) empty_level;
  best_bid = empty_bid;
  best_ask = empty_ask;
  best_bid_ptr = none;
  best_ask_ptr = none;
}

unfoldable pub is_valid_price : PriceLevels → Tick → Bool
is_valid_price p px = leb p.band.min_tick px && leb px p.band.max_tick

unfoldable pub idx : PriceLevels → Tick → Option ℕ
unfolding is_valid_price
idx p px = if is_valid_price p px then some (px - p.band.min_tick) else none

unfoldable pub get_level : PriceLevels → Tick → Option LevelFifo
unfolding idx
get_level p px = do i ← idx p px; get_elem? p.levels i

-- What the source does through the reference that `get_level` returns: the level at `px` becomes `l`.
unfoldable pub put_level : PriceLevels → Tick → LevelFifo → Option PriceLevels
unfolding idx
put_level p px l = do i ← idx p px; some (record p { levels = set p.levels i l })

-- The callers test `is_valid_price` first.
unfoldable pub has_level : PriceLevels → Tick → Bool
unfolding get_level
has_level p px = elim (get_level p px) [ none ↦ false | some l ↦ not (is_empty l) ]

unfoldable pub best_level_ptr : PriceLevels → Side → Option ℕ
best_level_ptr p bid = p.best_bid_ptr
best_level_ptr p ask = p.best_ask_ptr

unfoldable pub set_best_bid : PriceLevels → Tick → PriceLevels
unfolding idx
set_best_bid p px = record p {
  best_bid = px;
  best_bid_ptr = if px == empty_bid then none else idx p px;
}

unfoldable pub set_best_ask : PriceLevels → Tick → PriceLevels
unfolding idx
set_best_ask p px = record p {
  best_ask = px;
  best_ask_ptr = if px == empty_ask then none else idx p px;
}

-- The calls of `fn` that `for_each_order` and `for_each_nonempty` make, from the price `px` up.
unfoldable pub for_each_order : Tick → List LevelFifo → List (Tick × Order)
for_each_order px [] = []
for_each_order px (l ∷ ls) = map (λ o. (px, o)) l.orders ++ for_each_order (px + 1) ls

unfoldable pub for_each_nonempty : Tick → List LevelFifo → List (Tick × LevelFifo)
for_each_nonempty px [] = []
for_each_nonempty px (l ∷ ls) =
    let rest = for_each_nonempty (px + 1) ls in if is_empty l then rest else (px, l) ∷ rest
