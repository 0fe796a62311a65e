-- ===== src/Tests/Book.antt =====
-- A small book of include/hyperliquid/order_book.h: three bids at the prices 100, 101 and 102.
use hyperliquid_matching_eng.Base.{
  ℕ, ◌+◌, ◌<◌, ◌≡◌, refl, arith, true, List, [], ◌∷◌, none, some, inl, inr, get_elem?, zero, suc,
  some_inj, subst,
}
use hyperliquid_matching_eng.Base.Int.{pos, ◌+ℤ◌, sum_ℤ}
use hyperliquid_matching_eng.Types.{
  tick, bid, ask, PriceBand, OrderId, empty_bid, empty_ask, Timestamp,
}
use hyperliquid_matching_eng.Order.{Order, LevelFifo, empty_level, is_empty, deref, erase}
use hyperliquid_matching_eng.Order.Laws.{IsLevel}
use hyperliquid_matching_eng.PriceLevels.{
  PriceLevels, has_level, get_level, idx, is_valid_price, best_level_ptr,
}
use hyperliquid_matching_eng.FlatMap
use hyperliquid_matching_eng.FlatMap.{FlatMap}
use hyperliquid_matching_eng.FlatMap.Counting.{IsTable, count_taken}
use hyperliquid_matching_eng.Book.State.{OrderBook, OrderEntry, blank_entry}
use hyperliquid_matching_eng.Book.Search.{Better}
use hyperliquid_matching_eng.Book.Sides.{IsSide}
use hyperliquid_matching_eng.Book.Takers.{IsBook}
use hyperliquid_matching_eng.Book.Cancel.{cancel}
use hyperliquid_matching_eng.Book.Without.{without}
use hyperliquid_matching_eng.Book.Cancels.{IsLive, Erased, rest_of, cancel_lem, cancel_hides_best}
use hyperliquid_matching_eng.Book.Erasing.{slot_of}

abbrev pub clock : ℕ → Timestamp
clock n = n + 1000

abbrev pub resting : OrderId → ℕ → ℕ → Order
resting id addr qty = record { addr = addr; id = id; user = 7; qty = pos qty; ts = 5; flags = 0 }

abbrev pub level_of : Order → LevelFifo
level_of o = record { orders = o ∷ []; total_qty = o.qty }

abbrev pub band : PriceBand
band = record { min_tick = tick 100; max_tick = tick 102; tick_size = 1 }

abbrev pub some_bids : PriceLevels
some_bids = record {
  band = band;
  levels = level_of (resting 3 2 5) ∷ level_of (resting 2 1 10) ∷ level_of (resting 1 0 6) ∷ [];
  best_bid = tick 102;
  best_ask = empty_ask;
  best_bid_ptr = some 2;
  best_ask_ptr = none;
}

abbrev pub no_asks : PriceLevels
no_asks = record {
  band = band;
  levels = empty_level ∷ empty_level ∷ empty_level ∷ [];
  best_bid = empty_bid;
  best_ask = empty_ask;
  best_bid_ptr = none;
  best_ask_ptr = none;
}

abbrev pub entry_of : ℕ → ℕ → OrderEntry
entry_of price addr = record { side = bid; price = tick price; node = addr }

abbrev pub index : FlatMap OrderEntry
index = record {
  entries =
      record { key = 1; value = entry_of 102 0 }
      ∷ record { key = 0; value = blank_entry }
      ∷ record { key = 3; value = entry_of 100 2 }
      ∷ record { key = 2; value = entry_of 101 1 }
      ∷ [];
  capacity = 4;
  size = 3;
  blank = blank_entry;
}

abbrev pub book : OrderBook
book = record {
  symbol_id = 1;
  bids = some_bids;
  asks = no_asks;
  order_pool = record {
    slab_objects = 4;
    num_slabs = 2;
    free_list = 7 ∷ 6 ∷ 5 ∷ 4 ∷ 3 ∷ [];
    capacity = 8;
    in_use = 3;
  };
  id_index = index;
  on_trade = true;
  on_book_update = true;
  events = [];
  clock_reads = 0;
}

abbrev AllLevels : List LevelFifo → Type 0
AllLevels [] = Unit {0}
AllLevels (l ∷ ls) = IsLevel l × AllLevels ls

queue_at :
    (ls : List LevelFifo)
    → AllLevels ls
    → (i : ℕ) (l : LevelFifo) → get_elem? ls i ≡ some l
    → IsLevel l
queue_at [] v i l e = absurd (ground (arith, e))
queue_at (x ∷ ls) v zero l e = subst IsLevel (some_inj e) v.0
queue_at (x ∷ ls) v (suc i) l e = queue_at ls v.1 i l e

level_of-IsLevel : (id addr qty : ℕ) → 0 < qty → IsLevel (level_of (resting id addr qty))
level_of-IsLevel id addr qty h = record {
  distinct = (tt, tt);
  all_open = (omega arith, tt);
  total = unfold sum_ℤ ◌+ℤ◌ in ground arith;
}

empty-IsLevel : IsLevel empty_level
empty-IsLevel = record { distinct = tt; all_open = tt; total = unfold sum_ℤ in refl }

pub some_bids-IsSide : IsSide bid some_bids
unfolding has_level get_level idx is_valid_price best_level_ptr
some_bids-IsSide = record {
  array = record {
    band = record { low = omega arith; high = omega arith };
    ordered = omega arith;
    width = omega arith;
    queues = queue_at some_bids.levels (
      level_of-IsLevel 3 2 5 (omega arith),
      (level_of-IsLevel 2 1 10 (omega arith), (level_of-IsLevel 1 0 6 (omega arith), tt)),
    );
  };
  marked = inr (refl, refl);
}

pub no_asks-IsSide : IsSide ask no_asks
unfolding best_level_ptr
no_asks-IsSide = record {
  array = record {
    band = record { low = omega arith; high = omega arith };
    ordered = omega arith;
    width = omega arith;
    queues = queue_at no_asks.levels (empty-IsLevel, (empty-IsLevel, (empty-IsLevel, tt)));
  };
  marked = inl (refl, refl);
}

pub index-IsTable : IsTable index
unfolding count_taken
index-IsTable = record { slots = refl; counted = refl; room = omega arith; wide = omega arith }

pub book-IsBook : IsBook book
book-IsBook = record { bids = some_bids-IsSide; asks = no_asks-IsSide; table = index-IsTable }

pub second : IsLive 2 book (entry_of 101 1) (resting 2 1 10)
unfolding FlatMap.find FlatMap.find_from FlatMap.home FlatMap.hash get_level idx is_valid_price
    deref
second = record { level = level_of (resting 2 1 10); found = refl; at = refl; node = refl }

cancel_lem_example :
    (b' : OrderBook) × (cancel clock 2 book ≡ some (true, b'))
    × IsBook b'
    × Erased (entry_of 101 1) (resting 2 1 10) (rest_of second) book b'
    × (b'.bids ≡ without bid some_bids (slot_of some_bids (tick 101)) (rest_of second))
cancel_lem_example = cancel_lem clock 2 book (entry_of 101 1) (resting 2 1 10) second book-IsBook

rest_empty : is_empty (rest_of second) ≡ true
unfolding second erase
rest_empty = refl

best_held : has_level some_bids (tick 102) ≡ true
unfolding has_level get_level idx is_valid_price
best_held = refl

cancel_hides_best_example :
    (b' : OrderBook) × (cancel clock 2 book ≡ some (true, b'))
    × (has_level b'.bids (tick 102) ≡ true)
    × Better bid (tick 102) b'.bids.best_bid
cancel_hides_best_example =
    cancel_hides_best clock 2 book (entry_of 101 1) (resting 2 1 10) second book-IsBook rest_empty
      best_held (omega arith)
