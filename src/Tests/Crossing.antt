-- ===== src/Tests/Crossing.antt =====
-- Best prices that cross and best prices that do not (include/hyperliquid/order_book.h).
use hyperliquid_matching_eng.Base.{◌≡◌, refl, true, arith, some}
use hyperliquid_matching_eng.Base.Int.{pos, 0ℤ}
use hyperliquid_matching_eng.Types.{tick, bid, ask, has_stp, new_order}
use hyperliquid_matching_eng.Command.{OrderCommand, exec_result}
use hyperliquid_matching_eng.PriceLevels.{get_level}
use hyperliquid_matching_eng.Book.State.{OrderBook, levels_of}
use hyperliquid_matching_eng.Book.Submit.{submit_limit}
use hyperliquid_matching_eng.Book.Sound.{IsSound}
use hyperliquid_matching_eng.Book.Uncrossed.{IsUncrossed}
use hyperliquid_matching_eng.Book.Crossing.{IsCrossed, submit_limit-crosses}
use hyperliquid_matching_eng.MatchingEngine.{dispatch}
use hyperliquid_matching_eng.MatchingEngine.Uncrossing.{NoPrevention, dispatch-IsUncrossed}
use hyperliquid_matching_eng.Tests.Book.{clock, book, level_of, resting}
use hyperliquid_matching_eng.Tests.Engine.{sell_20, book-IsSound, in_band}

sell_20-NoPrevention : NoPrevention new_order sell_20 book
unfolding has_stp
sell_20-NoPrevention = refl

dispatch-IsUncrossed_example :
    (b' : OrderBook) × (dispatch clock new_order sell_20 book ≡ some b')
    × IsSound b'
    × IsUncrossed b'
dispatch-IsUncrossed_example =
    dispatch-IsUncrossed clock sell_20 book book-IsSound (omega arith)
      (in_band, omega arith, omega arith) sell_20-NoPrevention

-- The user of the orders that rest sells to himself.
abbrev own_sale : OrderCommand
own_sale = record sell_20 { user_id = 7; flags = 4 }

own_sale-prevented : has_stp own_sale.flags ≡ true
unfolding has_stp
own_sale-prevented = refl

best_level : get_level (levels_of bid book) (tick 102) ≡ some (level_of (resting 1 0 6))
unfolding get_level
best_level = refl

submit_limit-crosses_example :
    (b' : OrderBook) × (submit_limit clock own_sale book ≡ some (exec_result 0ℤ (pos 20), b'))
    × IsSound b'
    × IsCrossed b'
submit_limit-crosses_example =
    submit_limit-crosses clock own_sale book (level_of (resting 1 0 6)) book-IsSound refl
      own_sale-prevented (in_band ask) (omega arith) (omega arith) (omega arith) refl best_level
      (refl, tt)
