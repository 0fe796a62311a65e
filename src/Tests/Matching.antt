-- ===== src/Tests/Matching.antt =====
-- Matching against the small book (include/hyperliquid/order_book.h).
use hyperliquid_matching_eng.Base.{ℕ, ◌≡◌, refl, arith, true, List, [], ◌∷◌, some}
use hyperliquid_matching_eng.Base.Int.{◌<ℤ◌, pos, ◌+ℤ◌, ◌-ℤ◌, 0ℤ}
use hyperliquid_matching_eng.Types.{
  tick, bid, ask, TimeInForce, ioc, fok, limit, new_order, Quantity, empty_bid,
}
use hyperliquid_matching_eng.Command.{OrderCommand, exec_result}
use hyperliquid_matching_eng.Order.{Order}
use hyperliquid_matching_eng.SlabPool
use hyperliquid_matching_eng.PriceLevels.{is_valid_price}
use hyperliquid_matching_eng.Book.State.{OrderBook, refresh_levels}
use hyperliquid_matching_eng.Book.Matching.{Incoming, Taker, Fill, match_against_side}
use hyperliquid_matching_eng.Book.Submit.{incoming, submit_limit, submit_market}
use hyperliquid_matching_eng.Book.Fills.{Fills, fill_level_refines}
use hyperliquid_matching_eng.Book.Sides.{IsRefreshed, refresh_levels-IsRefreshed}
use hyperliquid_matching_eng.Book.Matched.{Matched}
use hyperliquid_matching_eng.Book.Filling.{IsStopped}
use hyperliquid_matching_eng.Book.MatchLoop.{match_against_side_lem}
use hyperliquid_matching_eng.Book.Liquidity.{liquidity, quantity_at, submit_limit-killed}
use hyperliquid_matching_eng.Book.Takers.{Announced, submit_market_lem, submit_limit-taker}
use hyperliquid_matching_eng.Tests.Book.{
  clock, resting, some_bids, index, book, some_bids-IsSide, index-IsTable, book-IsBook,
}

-- A sale of 12 at 101 or better.
abbrev sale : TimeInForce → ℕ → OrderCommand
sale tif qty = record {
  type = new_order;
  recv_ts = 9;
  order_id = 50;
  symbol_id = 1;
  user_id = 8;
  price_ticks = tick 101;
  qty = pos qty;
  side = ask;
  order_type = limit;
  tif = tif;
  flags = 0;
  stop_price = tick 0;
  display_qty = pos 0;
  expiry_ts = 0;
}

abbrev seller : Incoming
seller = incoming (sale ioc 12) (tick 101)

match_against_side_lem_example :
    (traded : Quantity) × (b' : OrderBook) × (match_against_side bid seller (pos 12) book
      ≡ some (traded, b'))
    × Matched bid (tick 101) (pos 12) book traded b'
    × IsStopped bid seller (pos 12 -ℤ traded) b'
match_against_side_lem_example =
    match_against_side_lem bid seller (pos 12) book (omega arith) some_bids-IsSide index-IsTable

submit_market_lem_example :
    (traded : Quantity) × (matched b' : OrderBook) × (submit_market clock (sale ioc 12) book
      ≡ some (exec_result traded (pos 12 -ℤ traded), b'))
    × Matched bid empty_bid (pos 12) book traded matched
    × IsStopped bid (incoming (sale ioc 12) empty_bid) (pos 12 -ℤ traded) matched
    × Announced matched b'
submit_market_lem_example = submit_market_lem clock (sale ioc 12) book (omega arith) book-IsBook

submit_limit-taker_example :
    (traded : Quantity) × (matched b' : OrderBook) × (submit_limit clock (sale ioc 12) book
      ≡ some (exec_result traded 0ℤ, b'))
    × Matched bid (tick 101) (pos 12) book traded matched
    × IsStopped bid seller (pos 12 -ℤ traded) matched
    × Announced matched b'
submit_limit-taker_example =
    submit_limit-taker clock (sale ioc 12) book (omega arith) book-IsBook refl refl

too_much : liquidity bid book.bids (tick 101) <ℤ pos 40
unfolding quantity_at ◌+ℤ◌
too_much = omega arith

submit_limit-killed_example :
    (b' : OrderBook) × (submit_limit clock (sale fok 40) book ≡ some (exec_result 0ℤ 0ℤ, b'))
    × Announced book b'
submit_limit-killed_example = submit_limit-killed clock (sale fok 40) book book-IsBook refl too_much

-- A taker with self-trade prevention on, and three makers, the second of them its own.
abbrev taker : Taker
taker = record {
  id = 50;
  user = 8;
  ts = 9;
  enable_stp = true;
  symbol_id = 1;
  price = tick 101;
  on_trade = true;
}

abbrev makers : List Order
makers = resting 1 0 6 ∷ record (resting 2 1 10) { user = 8 } ∷ resting 3 2 5 ∷ []

abbrev filling : Fill
filling = record {
  level = record { orders = makers; total_qty = pos 21 };
  order_pool = SlabPool.init 4 2;
  id_index = index;
  events = [];
  qty = pos 20;
  total_filled = pos 0;
}

fill_level_refines_example : Fills taker [] makers filling
fill_level_refines_example =
    fill_level_refines taker filling
      ((omega arith, (omega arith, tt)), ((omega arith, tt), (tt, tt))) index-IsTable

best_in_band : is_valid_price some_bids (tick 102) ≡ true
unfolding is_valid_price
best_in_band = refl

refresh_levels-IsRefreshed_example : IsRefreshed bid some_bids (refresh_levels bid some_bids)
refresh_levels-IsRefreshed_example =
    refresh_levels-IsRefreshed bid some_bids some_bids-IsSide.array.band best_in_band
