-- ===== src/Pipeline.antt =====
-- The threads of one symbol (src/main.cpp, src/feed_handler.cpp, src/matching_engine.cpp,
-- src/publisher.cpp): the feed pushes commands to the input ring, the engine takes them and pushes
-- the events of its book to the output ring, and the publisher pops those. Each call of a ring is
-- one step, and the threads' steps follow one another in any order. The book is the engine's alone,
-- so a command's handler is one step too; the pushes that it makes through its callbacks are the
-- steps that follow, before the engine's next command.
pub mod Serial
pub mod Lanes
pub mod Progress
pub mod System
pub mod History
pub mod Kept
pub mod Whole
use hyperliquid_matching_eng.Base.{ℕ, suc, ◌≡◌, true, List, [], ◌∷◌, ◌++◌, Option, some}
use hyperliquid_matching_eng.Types.{Timestamp}
use hyperliquid_matching_eng.Command.{OrderCommand, AnyEvent}
use hyperliquid_matching_eng.SpscQueue.{SpscQueue, push, pop}
use hyperliquid_matching_eng.Book.State.{OrderBook}
use hyperliquid_matching_eng.MatchingEngine.{MatchingEngine, dispatch}
use hyperliquid_matching_eng.MatchingEngine.Serving.{cleared}

-- An engine with its two rings, and the events of its last command that it has still to push.
pub record Lane : Type 0 where
  pub engine : MatchingEngine
  pub outgoing : List AnyEvent

abbrev pub with_input : SpscQueue OrderCommand → Lane → Lane
with_input q l = record l {
  engine = record (l.engine) { config = record (l.engine.config) { input_queue = q } };
}

abbrev pub with_output : SpscQueue AnyEvent → Lane → Lane
with_output q l = record l {
  engine = record (l.engine) { config = record (l.engine.config) { output_queue = q } };
}

-- What a step does at the ends of the lane: a command comes in, an event goes out, or neither.
pub data Label : Type 0 where
  fed : OrderCommand → Label
  inside : Label
  published : AnyEvent → Label

-- `now_ns` is the clock that the engine reads.
module _ (now_ns : ℕ → Timestamp) where
  -- A call of a ring that returns true, or a command's handler. A call that returns false changes
  -- nothing, and its thread repeats it.
  pub data LaneStep (l : Lane) : Label → Lane → Type 0 where
    feeds :
        {cmd : OrderCommand} {q : SpscQueue OrderCommand}
        → push cmd l.engine.config.input_queue ≡ (true, q)
        → LaneStep l (fed cmd) (with_input q l)
    takes :
        {cmd : OrderCommand} {q : SpscQueue OrderCommand} {b : OrderBook}
        → l.outgoing ≡ []
        → pop l.engine.config.input_queue ≡ (true, some cmd, q)
        → dispatch now_ns cmd.type cmd (cleared l.engine.order_book) ≡ some b
        → LaneStep l inside (record {
          engine = record { config = record (l.engine.config) { input_queue = q }; order_book = b };
          outgoing = b.events;
        })
    emits :
        {e : AnyEvent} {es : List AnyEvent} {q : SpscQueue AnyEvent}
        → l.outgoing ≡ e ∷ es
        → push e l.engine.config.output_queue ≡ (true, q)
        → LaneStep l inside (record (with_output q l) { outgoing = es })
    publishes :
        {e : AnyEvent} {q : SpscQueue AnyEvent}
        → pop l.engine.config.output_queue ≡ (true, some e, q)
        → LaneStep l (published e) (with_output q l)

-- The commands and the events that a step moves over the lane's ends.
abbrev pub fed_by : Label → List OrderCommand
fed_by (fed c) = c ∷ []
fed_by inside = []
fed_by (published e) = []

abbrev pub published_by : Label → List AnyEvent
published_by (fed c) = []
published_by inside = []
published_by (published e) = e ∷ []

-- The runs of the threads from a lane: the commands that have come in, the events that have gone
-- out, and the number of steps.
pub data LaneRuns (now_ns : ℕ → Timestamp) (first : Lane)
    : List OrderCommand → List AnyEvent → ℕ → Lane → Type 0 where
  starts : LaneRuns now_ns first [] [] 0 first
  goes_on :
      {cs : List OrderCommand} {es : List AnyEvent} {n : ℕ} {l l' : Lane} {a : Label}
      → LaneRuns now_ns first cs es n l
      → LaneStep now_ns l a l'
      → LaneRuns now_ns first (cs ++ fed_by a) (es ++ published_by a) (suc n) l'
