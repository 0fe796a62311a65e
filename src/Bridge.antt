-- ===== src/Bridge.antt =====
-- tools/engine_bridge.cpp: the reading of a JSON field, the statistics, and the lines of output. The
-- floating-point numbers of the prices and the averages are parameters (Loop).
pub mod Loop
pub mod Latencies
pub mod Fields
pub mod Identifiers
pub mod Active
use hyperliquid_matching_eng.Base.{
  ℕ, ◌+◌, ◌^◌, ◌-◌, ◌%◌, Bool, true, false, ◌||◌, List, [], ◌∷◌, ◌++◌, Option, none, some, ◌==◌,
  ltb, if◌then◌else◌,
}
use hyperliquid_matching_eng.Types.{Tick, Quantity, empty_bid, empty_ask}
use hyperliquid_matching_eng.Command.{TradeEvent, BookUpdate, AnyEvent, trade, book_update}
use hyperliquid_matching_eng.Json.{Bytes, codes, show_u64, show_i64, show_tick}
use hyperliquid_matching_eng.Json.Parse.{behind}

-- The loop that skips blanks and quotes; the Boolean says whether the byte before is a quote.
unfoldable pub skip_to_value : Bool → Bytes → Bool × Bytes
skip_to_value quoted [] = (quoted, [])
skip_to_value quoted (c ∷ s) =
    let after_quote = skip_to_value true s in
    let after_blank = skip_to_value false s in
    if c == b'"' then after_quote else if c == b' ' then after_blank else (quoted, c ∷ s)

-- The two loops that look for the end of the value.
unfoldable pub until_quote : Bytes → Bytes
until_quote [] = []
until_quote (c ∷ s) = let rest = until_quote s in if c == b'"' then [] else c ∷ rest

unfoldable pub until_end : Bytes → Bytes
until_end [] = []
until_end (c ∷ s) = let rest = until_end s in if c == b',' || c == b'}' then [] else c ∷ rest

unfoldable pub value_of : Bool × Bytes → Bytes
unfolding until_quote until_end
value_of (true, s) = until_quote s
value_of (false, s) = until_end s

unfoldable pub get_json_string : Bytes → Bytes → Bytes
unfolding skip_to_value value_of behind
get_json_string json key = elim (behind (b'"' ∷ key ++ codes "\":") json) [
  | none ↦ []
  | some rest ↦ value_of (skip_to_value false rest)
]

pub record EngineStats : Type 0 where
  pub orders_processed : ℕ
  pub trades_executed : ℕ
  pub total_latency_ns : ℕ
  pub min_latency_ns : ℕ
  pub max_latency_ns : ℕ
  pub resting_orders : ℕ

abbrev pub uint64_max : ℕ
uint64_max = 2 ^ 64 - 1

-- The counters start anew: the members' initial values, and `reset`.
abbrev pub no_stats : EngineStats
no_stats = record {
  orders_processed = 0;
  trades_executed = 0;
  total_latency_ns = 0;
  min_latency_ns = uint64_max;
  max_latency_ns = 0;
  resting_orders = 0;
}

unfoldable pub reset : EngineStats → EngineStats
reset s = no_stats

unfoldable pub record_latency : ℕ → EngineStats → EngineStats
record_latency ns s = record s {
  total_latency_ns = (s.total_latency_ns + ns) % 2 ^ 64;
  min_latency_ns = if ltb ns s.min_latency_ns then ns else s.min_latency_ns;
  max_latency_ns = if ltb s.max_latency_ns ns then ns else s.max_latency_ns;
}

-- A counter of 64 bits, up and down by one.
abbrev pub up : ℕ → ℕ
up n = (n + 1) % 2 ^ 64

abbrev pub down : ℕ → ℕ
down n = (n + 2 ^ 64 - 1) % 2 ^ 64

-- The line that is written to the standard output.
unfoldable pub output_event : Bytes → Bytes → Bytes
output_event type data_text =
    codes "{\"type\":\"" ++ type ++ codes "\"," ++ data_text ++ codes "}\n"

-- A price, 0 for the sentinel.
abbrev pub show_best : Tick → Tick → Bytes
show_best sentinel px = if px == sentinel then codes "0" else show_tick px

unfoldable pub output_stats : (ℕ → ℕ → ℕ) → EngineStats → Tick → Tick → Quantity → Quantity → Bytes
unfolding output_event
output_stats average stats best_bid best_ask bid_qty ask_qty = output_event (codes "stats") (
    codes "\"data\":{\"orders_processed\":"
    ++ show_u64 stats.orders_processed
    ++ codes ",\"trades_executed\":"
    ++ show_u64 stats.trades_executed
    ++ codes ",\"resting_orders\":"
    ++ show_u64 stats.resting_orders
    ++ codes ",\"avg_latency_ns\":"
    ++ show_u64 (
        if ltb 0 stats.orders_processed
        then average stats.total_latency_ns stats.orders_processed
        else 0)
    ++ codes ",\"min_latency_ns\":"
    ++ show_u64 (if stats.min_latency_ns == uint64_max then 0 else stats.min_latency_ns)
    ++ codes ",\"max_latency_ns\":"
    ++ show_u64 stats.max_latency_ns
    ++ codes ",\"best_bid\":"
    ++ show_best empty_bid best_bid
    ++ codes ",\"best_ask\":"
    ++ show_best empty_ask best_ask
    ++ codes ",\"bid_qty\":"
    ++ show_i64 bid_qty
    ++ codes ",\"ask_qty\":"
    ++ show_i64 ask_qty
    ++ codes "}")

unfoldable pub output_trade : TradeEvent → Bytes
unfolding output_event
output_trade t = output_event (codes "trade") (
    codes "\"data\":{\"price\":"
    ++ show_tick t.price_ticks
    ++ codes ",\"qty\":"
    ++ show_i64 t.qty
    ++ codes ",\"maker_id\":"
    ++ show_u64 t.maker_id
    ++ codes ",\"taker_id\":"
    ++ show_u64 t.taker_id
    ++ codes ",\"ts\":"
    ++ show_u64 t.ts
    ++ codes "}")

unfoldable pub output_book_update : Tick → Tick → Quantity → Quantity → Bytes
unfolding output_event
output_book_update best_bid best_ask bid_qty ask_qty = output_event (codes "book") (
    codes "\"data\":{\"best_bid\":"
    ++ show_best empty_bid best_bid
    ++ codes ",\"best_ask\":"
    ++ show_best empty_ask best_ask
    ++ codes ",\"bid_qty\":"
    ++ show_i64 bid_qty
    ++ codes ",\"ask_qty\":"
    ++ show_i64 ask_qty
    ++ codes "}")

-- What the two callbacks of the book write, and the trades that they count.
unfoldable pub on_events : List AnyEvent → Bytes
unfolding output_trade output_book_update
on_events [] = []
on_events (trade t ∷ es) = output_trade t ++ on_events es
on_events (book_update u ∷ es) =
    output_book_update u.best_bid u.best_ask u.bid_qty u.ask_qty ++ on_events es

unfoldable pub count_trades : List AnyEvent → EngineStats → EngineStats
count_trades [] s = s
count_trades (trade t ∷ es) s =
    count_trades es (record s { trades_executed = up s.trades_executed })
count_trades (book_update u ∷ es) s = count_trades es s
