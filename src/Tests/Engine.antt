-- ===== src/Tests/Engine.antt =====
-- Runs of the order book and the engine of include/hyperliquid/order_book.h on a book that is sound.
use hyperliquid_matching_eng.Base.{
  ◌+◌, ◌≤◌, ◌≡◌, refl, true, arith, some, inl, [], ◌++◌, length, replicate,
}
use hyperliquid_matching_eng.Base.Int.{pos, 0ℤ, ◌-ℤ◌}
use hyperliquid_matching_eng.Types.{Quantity, tick, bid, ask, limit, gtc, new_order}
use hyperliquid_matching_eng.Command.{OrderCommand, exec_result, AnyEvent, book_update}
use hyperliquid_matching_eng.Order.Copies.{count, copies, held}
use hyperliquid_matching_eng.PriceLevels.{is_valid_price}
use hyperliquid_matching_eng.Book.State.{OrderBook}
use hyperliquid_matching_eng.Book.Sound.{IsSound}
use hyperliquid_matching_eng.Book.State
use hyperliquid_matching_eng.Book.State.{levels_of, update_of}
use hyperliquid_matching_eng.PriceLevels
use hyperliquid_matching_eng.Book.Opening.{init-IsSound}
use hyperliquid_matching_eng.Book.Submit.{submit_limit, incoming}
use hyperliquid_matching_eng.Book.Cancel.{cancel, modify}
use hyperliquid_matching_eng.Book.Matched.{Matched}
use hyperliquid_matching_eng.Book.Filling.{IsStopped}
use hyperliquid_matching_eng.Book.Takers.{Announced}
use hyperliquid_matching_eng.Book.Limits.{submit_limit_lem, submit_limit-cancel, Settled}
use hyperliquid_matching_eng.Book.Modifies.{modify-Modified, Modified}
use hyperliquid_matching_eng.SpscQueue.{SpscQueue, capacity}
use hyperliquid_matching_eng.SpscQueue.Fifo.{Holds}
use hyperliquid_matching_eng.MatchingEngine.{MatchingEngine, dispatch, process}
use hyperliquid_matching_eng.MatchingEngine.Serving.{
  InBand, IsSane, cleared, cleared-IsSound, dispatch-IsSound, process-IsSound,
}
use hyperliquid_matching_eng.MatchingEngine.Reachable.{opened, served, reachable-IsSound}
use hyperliquid_matching_eng.Tests.Book.{band, clock, book, book-IsBook, second, entry_of, resting}

-- An order to sell 20 at 101: it matches 6 at 102 and 10 at 101, and 4 rest.
abbrev pub sell_20 : OrderCommand
sell_20 = record {
  type = new_order;
  recv_ts = 9;
  order_id = 4;
  symbol_id = 1;
  user_id = 8;
  price_ticks = tick 101;
  qty = pos 20;
  side = ask;
  order_type = limit;
  tif = gtc;
  flags = 0;
  stop_price = tick 0;
  display_qty = 0ℤ;
  expiry_ts = 0;
}

pub book-IsSound : IsSound book
unfolding count copies held
book-IsSound = record {
  book = book-IsBook;
  shared = record { once = λ a. ground arith; within = λ a h. ground arith; slots = omega arith };
}

pub in_band : InBand (cleared book) (tick 101)
unfolding is_valid_price
in_band bid = refl
in_band ask = refl

submit_limit_lem_example :
    (traded : Quantity) × (matched rested b' : OrderBook) × (submit_limit clock sell_20 book
      ≡ some (exec_result traded (pos 20 -ℤ traded), b'))
    × Matched bid (tick 101) (pos 20) book traded matched
    × IsStopped bid (incoming sell_20 (tick 101)) (pos 20 -ℤ traded) matched
    × Settled sell_20 (pos 20 -ℤ traded) matched rested
    × Announced rested b'
    × IsSound b'
submit_limit_lem_example =
    submit_limit_lem clock sell_20 book book-IsSound refl (in_band ask) (omega arith) (omega arith)

abbrev buy_3 : OrderCommand
buy_3 = record sell_20 { qty = pos 3; side = bid }

submit_limit-cancel_example :
    (b' c : OrderBook) × (submit_limit clock buy_3 book ≡ some (exec_result 0ℤ (pos 3), b'))
    × (cancel clock 4 b' ≡ some (true, c))
    × IsSound c
    × ((levels_of bid c).levels ≡ book.bids.levels)
    × (levels_of ask c ≡ book.asks)
submit_limit-cancel_example =
    submit_limit-cancel clock buy_3 book book-IsSound refl (in_band bid) (omega arith) (omega arith)
      (inl refl)

modify-Modified_example :
    Modified clock 2 book
      (entry_of 101 1)
      (resting 2 1 10)
      second
      (tick 101)
      (pos 12)
      (modify clock 2 (tick 101) (pos 12) book)
modify-Modified_example =
    modify-Modified clock 2 book (entry_of 101 1) (resting 2 1 10) second (tick 101) (pos 12)
      book-IsSound (in_band bid) (omega arith) (omega arith)

abbrev pub out_queue : SpscQueue AnyEvent
out_queue = record {
  size_n = 8;
  buffer = replicate 8 (book_update (update_of clock book 0ℤ 0ℤ));
  head = 0;
  tail = 0;
}

pub out_queue-Holds : Holds out_queue []
out_queue-Holds = record {
  slots = refl;
  head_in = omega arith;
  fits = omega arith;
  tail_at = refl;
  items = tt;
}

abbrev pub in_queue : SpscQueue OrderCommand
in_queue = record { size_n = 8; buffer = replicate 8 sell_20; head = 0; tail = 0 }

abbrev engine : MatchingEngine
engine = record {
  config = record {
    symbol_id = 1;
    price_band = band;
    input_queue = in_queue;
    output_queue = out_queue;
  };
  order_book = book;
}

process-IsSound_example :
    (b' : OrderBook) × (dispatch clock new_order sell_20 (cleared book) ≡ some b')
    × IsSound b'
    × (0 + length b'.events ≤ capacity out_queue
        → (e' : MatchingEngine) × (process clock sell_20 engine ≡ some e')
          × (e'.order_book ≡ b')
          × Holds e'.config.output_queue ([] ++ b'.events))
process-IsSound_example =
    process-IsSound clock sell_20 engine [] book-IsSound (in_band, omega arith, omega arith)
      out_queue-Holds

abbrev opening : OrderBook
opening = State.init 4 1 band

opening_band : InBand (cleared opening) (tick 101)
unfolding State.init PriceLevels.init is_valid_price
opening_band bid = refl
opening_band ask = refl

opening-IsSane : IsSane new_order sell_20 (cleared opening)
opening-IsSane = (opening_band, omega arith, omega arith)

opening-IsSound : IsSound opening
opening-IsSound = init-IsSound band (omega arith) (omega arith) (omega arith) 4 1 (omega arith)

traded_once :
    (b' : OrderBook) × (dispatch clock new_order sell_20 (cleared opening) ≡ some b') × IsSound b'
traded_once =
    dispatch-IsSound clock sell_20 (cleared opening) (cleared-IsSound opening opening-IsSound)
      opening-IsSane

reachable-IsSound_example : IsSound traded_once.0
reachable-IsSound_example =
    reachable-IsSound clock 4 1 band traded_once.0 (omega arith) (omega arith) (omega arith)
      (omega arith) (served sell_20 opened opening-IsSane traded_once.1)
