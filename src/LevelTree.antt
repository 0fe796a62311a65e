-- ===== src/LevelTree.antt =====
-- include/hyperliquid/price_levels_avl.h: `PriceLevelsAVL`, the price levels in a `std::map`. The map
-- is the list of its entries in the order of the prices; a pointer to a level is its price.
pub mod Search
pub mod Cleanup
use hyperliquid_matching_eng.Base.{
  ℕ, suc, ◌+◌, Bool, true, false, not, ◌&&◌, List, [], ◌∷◌, ◌++◌, map, Option, none, some, ltb, leb,
  ◌==◌, if◌then◌else◌, length,
}
use hyperliquid_matching_eng.Types.{Tick, Side, bid, ask, empty_bid, empty_ask}
use hyperliquid_matching_eng.Order.{Order, LevelFifo, empty_level, is_empty}

abbrev pub Levels : Type 0
Levels = List (Tick × LevelFifo)

pub record LevelTree : Type 0 where
  pub levels : Levels
  pub best_bid : Tick
  pub best_ask : Tick
  pub best_bid_ptr : Option Tick
  pub best_ask_ptr : Option Tick

abbrev pub init : LevelTree
init = record {
  levels = [];
  best_bid = empty_bid;
  best_ask = empty_ask;
  best_bid_ptr = none;
  best_ask_ptr = none;
}

-- `levels_.find(px)`
unfoldable pub find : Tick → Levels → Option LevelFifo
find px [] = none
find px (e ∷ es) = let rest = find px es in if e.0 == px then some e.1 else rest

-- The entry at `px` becomes `l`; a new one comes to its place in the order.
unfoldable pub put : Tick → LevelFifo → Levels → Levels
put px l [] = (px, l) ∷ []
put px l (e ∷ es) =
    let rest = put px l es in
    if ltb px e.0 then (px, l) ∷ e ∷ es else if e.0 == px then (px, l) ∷ es else e ∷ rest

-- `levels_[px]` makes an empty level where there is none.
unfoldable pub get_level : Tick → LevelTree → LevelFifo × LevelTree
unfolding find put
get_level px t = elim (find px t.levels) [
  | some l ↦ (l, t)
  | none ↦ (empty_level, record t { levels = put px empty_level t.levels })
]

-- What the caller does through the reference.
unfoldable pub put_level : Tick → LevelFifo → LevelTree → LevelTree
unfolding put
put_level px l t = record t { levels = put px l t.levels }

unfoldable pub has_level : Tick → Levels → Bool
unfolding find
has_level px es = elim (find px es) [ none ↦ false | some l ↦ not (is_empty l) ]

unfoldable pub is_valid_price : Tick → Bool
is_valid_price px = ltb empty_bid px && ltb px empty_ask

unfoldable pub best_level_ptr : Side → LevelTree → Option Tick
best_level_ptr bid t = t.best_bid_ptr
best_level_ptr ask t = t.best_ask_ptr

abbrev ptr_to : Tick → Levels → Option Tick
ptr_to px es = elim (find px es) [ none ↦ none | some l ↦ some px ]

unfoldable pub set_best_bid : Tick → LevelTree → LevelTree
unfolding find
set_best_bid px t = record t {
  best_bid = px;
  best_bid_ptr = if px == empty_bid then none else ptr_to px t.levels;
}

unfoldable pub set_best_ask : Tick → LevelTree → LevelTree
unfolding find
set_best_ask px t = record t {
  best_ask = px;
  best_ask_ptr = if px == empty_ask then none else ptr_to px t.levels;
}

-- The calls of `fn` by `for_each_order` and `for_each_nonempty`, in their order.
unfoldable pub for_each_order : Levels → List (Tick × Order)
for_each_order [] = []
for_each_order (e ∷ es) = map (λ o. (e.0, o)) e.1.orders ++ for_each_order es

unfoldable pub for_each_nonempty : Levels → Levels
for_each_nonempty [] = []
for_each_nonempty (e ∷ es) =
    let rest = for_each_nonempty es in if is_empty e.1 then rest else e ∷ rest

-- `lower_bound(current)` and back: the last entry below `current` that is not empty.
unfoldable pub last_below : Tick → Levels → Option Tick
last_below current [] = none
last_below current (e ∷ es) = elim (last_below current es) [
  | some px ↦ some px
  | none ↦ if ltb e.0 current && not (is_empty e.1) then some e.0 else none
]

unfoldable pub find_next_bid : Tick → Levels → Tick
unfolding last_below
find_next_bid current es =
    if current == empty_bid
    then empty_bid
    else elim (last_below current es) [ none ↦ empty_bid | some px ↦ px ]

-- `upper_bound(current)` and on: the first entry above `current` that is not empty.
unfoldable pub first_above : Tick → Levels → Option Tick
first_above current [] = none
first_above current (e ∷ es) =
    let rest = first_above current es in
    if ltb current e.0 && not (is_empty e.1) then some e.0 else rest

unfoldable pub find_next_ask : Tick → Levels → Tick
unfolding first_above
find_next_ask current es =
    if current == empty_ask
    then empty_ask
    else elim (first_above current es) [ none ↦ empty_ask | some px ↦ px ]

unfoldable pub cleanup_empty_levels : LevelTree → LevelTree
unfolding for_each_nonempty
cleanup_empty_levels t = record t { levels = for_each_nonempty t.levels }

unfoldable pub num_levels : LevelTree → ℕ
num_levels t = length t.levels
