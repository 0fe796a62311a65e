-- ===== src/Tests/Pipeline.antt =====
-- A run of the threads of src/main.cpp with one symbol.
use hyperliquid_matching_eng.Base.{
  ℕ, zero, suc, ◌+◌, ◌*◌, ◌≤◌, ◌≡◌, refl, sym, arith, true, some, List, [], ◌∷◌, ◌++◌, ◌⊎◌,
  get_elem?, length, replicate, subst, some_inj,
}
use hyperliquid_matching_eng.Types.{Timestamp, new_order}
use hyperliquid_matching_eng.Command.{OrderCommand, AnyEvent}
use hyperliquid_matching_eng.SpscQueue.{SpscQueue, push, pop, capacity}
use hyperliquid_matching_eng.SpscQueue.Fifo.{Holds}
use hyperliquid_matching_eng.Book.State.{OrderBook}
use hyperliquid_matching_eng.Book.Sound.{IsSound}
use hyperliquid_matching_eng.MatchingEngine.{MatchingEngine, dispatch}
use hyperliquid_matching_eng.MatchingEngine.Serving.{cleared, cleared-IsSound, dispatch-IsSound}
use hyperliquid_matching_eng.FeedHandler.Routing.{for_symbol}
use hyperliquid_matching_eng.Publisher.{Publisher}
use hyperliquid_matching_eng.Publisher.Logs.{Logged}
use hyperliquid_matching_eng.Pipeline.{Lane, feeds, takes, starts, goes_on}
use hyperliquid_matching_eng.Pipeline.Serial.{serve_all, AllSane}
use hyperliquid_matching_eng.Pipeline.Progress.{LaneRuns-serve_all, GoesOn}
use hyperliquid_matching_eng.Pipeline.System.{
  System, SystemRuns, begins, follows, routes, works, launch, of_lane,
}
use hyperliquid_matching_eng.Pipeline.Whole.{
  IsReady, Serial, SymbolDone, CanGoOn, SystemRuns-Serial,
}
use hyperliquid_matching_eng.Tests.Book.{clock, book, band}
use hyperliquid_matching_eng.Tests.Engine.{
  sell_20, book-IsSound, in_band, in_queue, out_queue, out_queue-Holds,
}

abbrev sale : OrderCommand
sale = record sell_20 { symbol_id = 0 }

abbrev engine : MatchingEngine
engine = record {
  config = record {
    symbol_id = 0;
    price_band = band;
    input_queue = in_queue;
    output_queue = out_queue;
  };
  order_book = book;
}

abbrev fed_queue : SpscQueue OrderCommand
fed_queue = record in_queue { buffer = sale ∷ replicate 7 sell_20; tail = 1 }

abbrev fed_lane : Lane
fed_lane = record {
  engine = record engine { config = record (engine.config) { input_queue = fed_queue } };
  outgoing = [];
}

pushed : push sale in_queue ≡ (true, fed_queue)
unfolding push
pushed = refl

popped : pop fed_queue ≡ (true, some sale, record fed_queue { head = 1 })
unfolding pop
popped = refl

in_queue-Holds : Holds in_queue []
in_queue-Holds = record {
  slots = refl;
  head_in = omega arith;
  fits = omega arith;
  tail_at = refl;
  items = tt;
}

served : (b' : OrderBook) × (dispatch clock new_order sale (cleared book) ≡ some b') × IsSound b'
served =
    dispatch-IsSound clock sale (cleared book) (cleared-IsSound book book-IsSound)
      (in_band, omega arith, omega arith)

sale-AllSane : AllSane clock (sale ∷ []) book
sale-AllSane = ((in_band, omega arith, omega arith), λ b' e. tt)

-- The lane after the sale has come in and the engine has taken it.
abbrev taken_lane : Lane
taken_lane = record {
  engine = record {
    config = record (engine.config) { input_queue = record fed_queue { head = 1 } };
    order_book = served.0;
  };
  outgoing = (served.0).events;
}

engine-IsReady : IsReady engine
unfolding capacity
engine-IsReady = record {
  sound = book-IsSound;
  input = in_queue-Holds;
  output = out_queue-Holds;
  input_room = omega arith;
  output_room = omega arith;
}

abbrev waiting : List OrderCommand
waiting = []

abbrev none_out : List AnyEvent
none_out = []

LaneRuns-serve_all_example :
    (all : List AnyEvent) × (last : OrderBook) × (serve_all clock [] (sale ∷ []) book
      ≡ some (all, last))
    × ((rest : List AnyEvent) × (all ≡ [] ++ rest))
    × (2 ≤ 2 * 1 + 2 * length all)
    × (((waiting ≡ []) × (none_out ≡ all) × (served.0 ≡ last)) ⊎ GoesOn clock book [] taken_lane)
LaneRuns-serve_all_example =
    LaneRuns-serve_all clock engine (sale ∷ []) [] [] 2 taken_lane book-IsSound in_queue-Holds
      out_queue-Holds engine-IsReady.input_room engine-IsReady.output_room sale-AllSane
      (goes_on (goes_on starts (feeds pushed)) (takes refl popped served.1))

abbrev logs : Publisher
logs = record { trades_log = []; book_updates_log = []; total_events = 0; work_done = true }

abbrev clocks : ℕ → ℕ → Timestamp
clocks i = clock

abbrev after : System
after = record { file = []; lanes = taken_lane ∷ []; publisher = logs }

only_engine :
    (i : ℕ) (e : MatchingEngine) → get_elem? (engine ∷ []) i ≡ some e → (i ≡ 0) × (e ≡ engine)
only_engine zero e h = (refl, sym (some_inj h))
only_engine (suc i) e h = cc

sale-for : AllSane clock (for_symbol 0 (sale ∷ [])) book
unfolding for_symbol
sale-for = sale-AllSane

all_sane :
    (i : ℕ) (e : MatchingEngine)
    → get_elem? (engine ∷ []) i ≡ some e
    → AllSane (clocks i) (for_symbol i (sale ∷ [])) e.order_book
all_sane i e h = let (first, same) = only_engine i e h in rw (first, same) sale-for

two_steps : SystemRuns clocks (launch (engine ∷ []) (sale ∷ []) logs) (sale ∷ []) [] after
unfolding launch
two_steps =
    follows (follows begins (routes refl refl (feeds pushed)))
      (works 0 refl (takes refl popped served.1))

SystemRuns-Serial_example :
    Logged logs logs []
    × ((i : ℕ) (e : MatchingEngine)
        → get_elem? (engine ∷ []) i ≡ some e
        → Serial (clocks i) e (for_symbol i (sale ∷ [])) (of_lane i []))
    × (((waiting ≡ []) × ((i : ℕ) → SymbolDone clocks (engine ∷ []) (sale ∷ []) [] i))
        ⊎ CanGoOn clocks after)
SystemRuns-Serial_example =
    SystemRuns-Serial clocks (engine ∷ []) (sale ∷ []) logs
      (λ i e h. subst (λ x. IsReady x) (sym (only_engine i e h).1) engine-IsReady) all_sane
      (sale ∷ []) [] after two_steps
