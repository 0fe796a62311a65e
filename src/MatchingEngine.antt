-- ===== src/MatchingEngine.antt =====
-- include/hyperliquid/matching_engine.h and src/matching_engine.cpp: the engine of one symbol,
-- which pops commands and hands them to its order book. The book's events go to the output queue
-- in the order in which they are emitted; a full queue makes the engine spin.
pub mod Output
pub mod Serving
pub mod Reachable
pub mod Uncrossing
use hyperliquid_matching_eng.Base.{
  ℕ, ◌+◌, Bool, true, false, List, [], ◌∷◌, ◌++◌, Option, none, some, if◌then◌else◌, ◌>>=◌,
}
use hyperliquid_matching_eng.Types.{
  SymbolId, Timestamp, PriceBand, OrderType, limit, market, stop_limit, stop_market, CommandType,
  new_order, cancel_order, modify_order,
}
use hyperliquid_matching_eng.Command.{OrderCommand, AnyEvent}
use hyperliquid_matching_eng.SpscQueue.{SpscQueue, push_or_wait, pop}
use hyperliquid_matching_eng.Book.State
use hyperliquid_matching_eng.Book.State.{OrderBook}
use hyperliquid_matching_eng.Book.Submit.{submit_limit, submit_market}
use hyperliquid_matching_eng.Book.Cancel.{cancel, modify}

pub record Config : Type 0 where
  pub symbol_id : SymbolId
  pub price_band : PriceBand
  pub input_queue : SpscQueue OrderCommand
  pub output_queue : SpscQueue AnyEvent

pub record MatchingEngine : Type 0 where
  pub config : Config
  pub order_book : OrderBook

-- The constructor.
unfoldable pub init : ℕ → Config → MatchingEngine
init slab_objects config = record {
  config = config;
  order_book = State.init slab_objects config.symbol_id config.price_band;
}

abbrev pub is_limit : OrderType → Bool
is_limit limit = true
is_limit market = false
is_limit stop_limit = false
is_limit stop_market = false

-- The book that a handler leaves; what it returns is not used.
abbrev pub book_of {ℓ} : {A : Type ℓ} → Option (A × OrderBook) → Option OrderBook
book_of r = do (a, b) ← r; some b

-- `process_trade` and `process_book_update`: `while (!push(evt)) yield();`. `none` is the loop that
-- still waits for room; only the other end of the queue can make some.
unfoldable pub push_event : AnyEvent → SpscQueue AnyEvent → Option (SpscQueue AnyEvent)
push_event = push_or_wait

unfoldable pub push_events : List AnyEvent → SpscQueue AnyEvent → Option (SpscQueue AnyEvent)
unfolding push_event
push_events [] q = some q
push_events (e ∷ es) q = do q' ← push_event e q; push_events es q'

module _ (now_ns : ℕ → Timestamp) where
  unfoldable pub process_new : Bool → OrderCommand → OrderBook → Option OrderBook
  process_new true cmd b = book_of (submit_limit now_ns cmd b)
  process_new false cmd b = book_of (submit_market now_ns cmd b)

  -- The switch over the command's type.
  unfoldable pub dispatch : CommandType → OrderCommand → OrderBook → Option OrderBook
  unfolding process_new
  dispatch new_order cmd b = process_new (is_limit cmd.order_type) cmd b
  dispatch cancel_order cmd b = book_of (cancel now_ns cmd.order_id b)
  dispatch modify_order cmd b = book_of (modify now_ns cmd.order_id cmd.price_ticks cmd.qty b)

  -- One turn of `run` from a command that has been popped. The book's events are those of this
  -- command, which are pushed to the output queue.
  unfoldable pub process : OrderCommand → MatchingEngine → Option MatchingEngine
  process cmd e = do
    b ← dispatch cmd.type cmd (record (e.order_book) { events = [] })
    out ← push_events b.events e.config.output_queue
    some (record { config = record (e.config) { output_queue = out }; order_book = b })

  -- A turn of `run`: nothing happens while the input queue is empty.
  unfoldable pub turn : MatchingEngine → Option MatchingEngine
  unfolding process
  turn e =
      let (popped, cmd, q) = pop e.config.input_queue in
      elim cmd [
        | none ↦ some e
        | some c ↦ process c (record e { config = record (e.config) { input_queue = q } })
      ]
