-- ===== src/Tests/Bridge.antt =====
-- Runs of tools/engine_bridge.cpp.
use hyperliquid_matching_eng.Base.{
  ℕ, ◌≤◌, ◌≡◌, refl, arith, Bool, false, ◌&&◌, leb, if◌then◌else◌, none, some, [], ◌∷◌, ◌++◌,
  get_elem?,
}
use hyperliquid_matching_eng.Base.Int.{pos}
use hyperliquid_matching_eng.Types.{tick, bid, ask}
use hyperliquid_matching_eng.Json.{Bytes, codes}
use hyperliquid_matching_eng.PriceLevels.{is_valid_price}
use hyperliquid_matching_eng.Bridge.{no_stats, get_json_string}
use hyperliquid_matching_eng.Bridge.Latencies.{record_all, record_all-bounds}
use hyperliquid_matching_eng.Bridge.Fields.{get_json_string-quoted}
use hyperliquid_matching_eng.Bridge.Loop.{Bridge, Outside, handle_line, get_json_double}
use hyperliquid_matching_eng.Bridge.Active.{IsRunning, IsReady, handle_line-IsRunning}
use hyperliquid_matching_eng.MatchingEngine.Serving.{InBand}
use hyperliquid_matching_eng.Tests.Book.{clock, book}
use hyperliquid_matching_eng.Tests.Engine.{book-IsSound}

record_all-bounds_example :
    let s = record_all (7 ∷ 3 ∷ 9 ∷ []) no_stats in
    ((i y : ℕ)
      → get_elem? (7 ∷ 3 ∷ 9 ∷ []) i ≡ some y
      → (s.min_latency_ns ≤ y) × (y ≤ s.max_latency_ns))
    × ((i : ℕ) × (get_elem? (7 ∷ 3 ∷ 9 ∷ []) i ≡ some s.min_latency_ns))
    × ((i : ℕ) × (get_elem? (7 ∷ 3 ∷ 9 ∷ []) i ≡ some s.max_latency_ns))
record_all-bounds_example = record_all-bounds 7 (3 ∷ 9 ∷ []) (omega arith)

-- {"cmd":"stats"}
get_json_string-quoted_example :
    get_json_string
      (codes "{"
        ++ (b'"' ∷ codes "cmd" ++ codes "\":")
        ++ (b'"' ∷ codes "stats" ++ b'"' ∷ codes "}"))
      (codes "cmd")
    ≡ codes "stats"
get_json_string-quoted_example =
    get_json_string-quoted (codes "{") (codes "cmd") (codes "tats") (codes "}") b's'
      (omega arith, tt)
      (omega arith, (omega arith, (omega arith, (omega arith, (omega arith, tt))))) (omega arith)

-- A text that starts with a digit is read as 101, and no other is a number.
abbrev is_number : Bytes → Bool
is_number [] = false
is_number (c ∷ s) = leb b'0' c && leb c b'9'

abbrev outside : Outside ℕ
outside = record {
  now_ns = clock;
  stod = λ s. if is_number s then some 101 else none;
  zero_double = 0;
  not_positive = λ d. false;
  to_ticks = tick;
  to_qty = pos;
  average = λ a b. a;
  latency_ns = λ n. 40;
  first = λ xs. 0;
  unset_ts = λ id. 0;
}

abbrev bridge : Bridge
bridge = record {
  book = book;
  stats = no_stats;
  order_id = 4;
  last_stats_output = 0;
  active_orders = [];
  out = [];
}

bridge-IsRunning : IsRunning bridge
bridge-IsRunning = record { sound = book-IsSound; counted = refl; ids = tt }

-- {"cmd":"order","price":1,"size":1,"side":"A"}
abbrev order_line : Bytes
order_line = codes "{\"cmd\":\"order\",\"price\":1,\"size\":1,\"side\":\"A\"}"

in_band : InBand book (tick 101)
unfolding is_valid_price
in_band bid = refl
in_band ask = refl

order_line-IsReady : IsReady outside order_line bridge
unfolding get_json_double get_json_string
order_line-IsReady = record {
  order = λ is_order. (101, 101, refl, refl, λ good. (in_band, omega arith));
  known = λ it h. cc;
  started = omega arith;
  room = omega arith;
}

handle_line-IsRunning_example :
    (s' : Bridge) × (handle_line outside order_line bridge ≡ some s') × IsRunning s'
handle_line-IsRunning_example =
    handle_line-IsRunning outside order_line bridge bridge-IsRunning order_line-IsReady
