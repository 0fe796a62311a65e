-- ===== src/Bridge/Loop.antt =====
-- tools/engine_bridge.cpp: the main loop, one line of the standard input at a time.
use hyperliquid_matching_eng.Base.{
  ℕ, ◌+◌, ◌-◌, ◌%◌, ◌^◌, Bool, true, false, ◌||◌, List, [], ◌∷◌, ◌++◌, Option, none, some, ◌==◌,
  leb, if◌then◌else◌, ◌>>=◌, get_elem?,
}
use hyperliquid_matching_eng.Base.Int.{0ℤ, ltb_ℤ}
use hyperliquid_matching_eng.Types.{
  Tick, Quantity, Timestamp, OrderId, Side, bid, ask, new_order, limit, gtc, tick,
}
use hyperliquid_matching_eng.Command.{OrderCommand, ExecResult}
use hyperliquid_matching_eng.Json.{Bytes, codes, same_text}
use hyperliquid_matching_eng.Book.State.{OrderBook}
use hyperliquid_matching_eng.Book.Submit.{submit_limit}
use hyperliquid_matching_eng.Book.Cancel.{cancel}
use hyperliquid_matching_eng.Bridge.{
  EngineStats, get_json_string, output_event, output_stats, record_latency, reset, on_events,
  count_trades, up, down,
}

-- The orders that the bridge takes to be resting, by their identifiers: an unordered map.
abbrev pub ActiveOrders : Type 0
ActiveOrders = List (OrderId × OrderCommand)

-- The variables of `main`; `out` is what has been written.
pub record Bridge : Type 0 where
  pub book : OrderBook
  pub stats : EngineStats
  pub order_id : OrderId
  pub last_stats_output : ℕ
  pub active_orders : ActiveOrders
  pub out : Bytes

-- What the bridge takes from outside: the clock, the floating-point numbers (`std::stod`, which is
-- `none` where it throws and so ends the program; the test
-- `<= 0`, the casts of price * 100 and size * 1000, the average), the time that a submission took, and
-- which entry `begin()` of the unordered map is.
pub record Outside (Double : Type 0) : Type 0 where
  pub now_ns : ℕ → Timestamp
  pub stod : Bytes → Option Double
  pub zero_double : Double
  pub not_positive : Double → Bool
  pub to_ticks : Double → Tick
  pub to_qty : Double → Quantity
  pub average : ℕ → ℕ → ℕ
  pub latency_ns : ℕ → ℕ
  pub first : ActiveOrders → ℕ
  pub unset_ts : OrderId → Timestamp

-- `active_orders[id] = cmd`
unfoldable pub put_active : OrderId → OrderCommand → ActiveOrders → ActiveOrders
put_active id cmd [] = (id, cmd) ∷ []
put_active id cmd (x ∷ xs) =
    let rest = put_active id cmd xs in if x.0 == id then (id, cmd) ∷ xs else x ∷ rest

-- `active_orders.erase(it)`
unfoldable pub erase_active : OrderId → ActiveOrders → ActiveOrders
erase_active id [] = []
erase_active id (x ∷ xs) = let rest = erase_active id xs in if x.0 == id then xs else x ∷ rest

abbrev pub is_empty_text : Bytes → Bool
is_empty_text [] = true
is_empty_text (c ∷ s) = false

-- What the book's callbacks have done with the events of one call, which are then forgotten.
unfoldable pub flush : Bridge → Bridge
unfolding count_trades on_events
flush s = record s {
  book = record (s.book) { events = [] };
  stats = count_trades s.book.events s.stats;
  out = s.out ++ on_events s.book.events;
}

unfoldable pub side_of : Bytes → Side
unfolding same_text
side_of text = if same_text text (codes "B") || same_text text (codes "buy") then bid else ask

-- `if (result.remaining > 0)`
unfoldable pub track : OrderCommand → ExecResult → Bridge → Bridge
unfolding put_active
track cmd result s =
    if ltb_ℤ 0ℤ result.remaining
    then record s {
      stats = record (s.stats) { resting_orders = up s.stats.resting_orders };
      active_orders = put_active cmd.order_id cmd s.active_orders;
    }
    else s

unfoldable pub handle_reset : Bridge → Bridge
unfolding reset output_event
handle_reset s = record s {
  stats = reset s.stats;
  active_orders = [];
  out = s.out ++ output_event (codes "reset") (codes "\"data\":{\"success\":true}");
}

module _ {Double : Type 0} (w : Outside Double) where
  unfoldable pub get_json_double : Bytes → Bytes → Option Double
  get_json_double json key =
      let val = get_json_string json key in
      if is_empty_text val then some w.zero_double else w.stod val

  -- `OrderCommand cmd` of an "order" line.
  abbrev pub order_command : OrderId → Tick → Quantity → Side → OrderCommand
  order_command id price_ticks qty side = record {
    type = new_order;
    recv_ts = w.unset_ts id;
    order_id = id;
    symbol_id = 1;
    user_id = 1;
    price_ticks = price_ticks;
    qty = qty;
    side = side;
    order_type = limit;
    tif = gtc;
    flags = 0;
    stop_price = tick 0;
    display_qty = 0ℤ;
    expiry_ts = 0;
  }

  -- The counters of one submission.
  abbrev pub counted : Bridge → Bridge
  counted s = record s {
    stats =
        record_latency (w.latency_ns s.stats.orders_processed)
          (record (s.stats) { orders_processed = up s.stats.orders_processed });
  }

  -- The submission of one order and what follows it.
  unfoldable pub submit : OrderCommand → Bridge → Option Bridge
  unfolding flush track
  submit cmd s = do
    (result, book) ← submit_limit w.now_ns cmd s.book
    some (track cmd result (counted (flush (record s { book = book }))))

  -- An "order" line: `none` inside is the `continue` of an order that is not positive.
  unfoldable pub handle_order : Bytes → Bridge → Option (Option Bridge)
  unfolding submit get_json_double side_of
  handle_order line s = do
    price ← get_json_double line (codes "price")
    size ← get_json_double line (codes "size")
    let cmd =
        order_command s.order_id (w.to_ticks price) (w.to_qty size)
          (side_of (get_json_string line (codes "side")))
    if w.not_positive price || w.not_positive size
        then some none
        else (do s' ← submit cmd (record s { order_id = up s.order_id }); some (some s'))

  -- A "cancel" line: the first of the active orders.
  unfoldable pub handle_cancel : Bridge → Option Bridge
  unfolding flush erase_active
  handle_cancel s = elim (get_elem? s.active_orders (w.first s.active_orders)) [
    | none ↦ some s
    | some it ↦ do
      (found, book) ← cancel w.now_ns it.0 s.book
      let after = flush (record s { book = book })
      some (record after {
        stats = record (after.stats) { resting_orders = down after.stats.resting_orders };
        active_orders = erase_active it.0 after.active_orders;
      })
  ]

  unfoldable pub write_stats : Bridge → Bridge
  unfolding output_stats
  write_stats s = record s {
    out = s.out ++ output_stats w.average s.stats s.book.bids.best_bid s.book.asks.best_ask 0ℤ 0ℤ;
  }

  -- "periodic stats output (every 100 orders)": the difference of two uint64_t values.
  unfoldable pub periodic : Bridge → Bridge
  unfolding write_stats
  periodic s =
      if leb 100 ((s.stats.orders_processed + 2 ^ 64 - s.last_stats_output) % 2 ^ 64)
      then write_stats (record s { last_stats_output = s.stats.orders_processed })
      else s

  -- One turn of `while (std::getline(std::cin, line))`.
  unfoldable pub handle_line : Bytes → Bridge → Option Bridge
  unfolding handle_order handle_cancel write_stats handle_reset periodic same_text
  handle_line line s =
      let cmd_type = get_json_string line (codes "cmd") in
      if is_empty_text line
      then some s
      else if same_text cmd_type (codes "order")
      then (do
        done ← handle_order line s
        elim done [ none ↦ some s | some s' ↦ some (periodic s') ])
      else if same_text cmd_type (codes "cancel")
      then (do s' ← handle_cancel s; some (periodic s'))
      else if same_text cmd_type (codes "stats")
      then some (periodic (write_stats s))
      else if same_text cmd_type (codes "reset")
      then some (periodic (handle_reset s))
      else some (periodic s)

  unfoldable pub handle_lines : List Bytes → Bridge → Option Bridge
  unfolding handle_line
  handle_lines [] s = some s
  handle_lines (line ∷ lines) s = do s' ← handle_line line s; handle_lines lines s'
