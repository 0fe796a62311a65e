-- ===== src/Pipeline/System.antt =====
-- The threads of src/main.cpp: the feed reads the file of commands, every symbol has an engine
-- between two rings, and the publisher writes what comes out of the output rings.
use hyperliquid_matching_eng.Base.{
  ℕ, ◌≤◌, ◌≡◌, some, List, [], ◌∷◌, ◌++◌, map, get_elem?, set, length, ◌==◌, if◌then◌else◌,
}
use hyperliquid_matching_eng.Types.{Timestamp}
use hyperliquid_matching_eng.Command.{OrderCommand, AnyEvent}
use hyperliquid_matching_eng.MatchingEngine.{MatchingEngine}
use hyperliquid_matching_eng.Publisher.{Publisher, write_event}
use hyperliquid_matching_eng.Pipeline.{Lane, LaneStep, fed, inside, published}

pub record System : Type 0 where
  pub file : List OrderCommand
  pub lanes : List Lane
  pub publisher : Publisher

-- An event with the number of the ring that it came from.
abbrev pub LogEntry : Type 0
LogEntry = ℕ × AnyEvent

-- The threads are launched: the queues are those of the engines.
unfoldable pub launch : List MatchingEngine → List OrderCommand → Publisher → System
launch engines file publisher = record {
  file = file;
  lanes = map (λ e. record { engine = e; outgoing = [] }) engines;
  publisher = publisher;
}

-- `clocks i` is the clock that engine number `i` reads.
module _ (clocks : ℕ → ℕ → Timestamp) where
  -- A step of one thread, with the commands that it takes from the file and what it writes to the
  -- logs. A command for no symbol is passed over.
  pub data SystemStep (s : System) : List OrderCommand → List LogEntry → System → Type 0 where
    skips :
        {c : OrderCommand} {cs : List OrderCommand}
        → s.file ≡ c ∷ cs
        → length s.lanes ≤ c.symbol_id
        → SystemStep s (c ∷ []) [] (record s { file = cs })
    routes :
        {c : OrderCommand} {cs : List OrderCommand} {l l' : Lane}
        → s.file ≡ c ∷ cs
        → get_elem? s.lanes c.symbol_id ≡ some l
        → LaneStep (clocks c.symbol_id) l (fed c) l'
        → SystemStep s (c ∷ []) [] (record s { file = cs; lanes = set s.lanes c.symbol_id l' })
    works :
        (i : ℕ) {l l' : Lane}
        → get_elem? s.lanes i ≡ some l
        → LaneStep (clocks i) l inside l'
        → SystemStep s [] [] (record s { lanes = set s.lanes i l' })
    logs :
        (i : ℕ) {e : AnyEvent} {l l' : Lane}
        → get_elem? s.lanes i ≡ some l
        → LaneStep (clocks i) l (published e) l'
        → SystemStep s []
            ((i, e) ∷ [])
            (record s { lanes = set s.lanes i l'; publisher = write_event e s.publisher })

  -- The runs: the commands that the feed has read, and the entries that have been logged.
  pub data SystemRuns (first : System) : List OrderCommand → List LogEntry → System → Type 0 where
    begins : SystemRuns first [] [] first
    follows :
        {cs used : List OrderCommand} {log out : List LogEntry} {s s' : System}
        → SystemRuns first cs log s
        → SystemStep s used out s'
        → SystemRuns first (cs ++ used) (log ++ out) s'

-- The events of one ring.
unfoldable pub of_lane : ℕ → List LogEntry → List AnyEvent
of_lane i [] = []
of_lane i ((j, e) ∷ log) = if j == i then e ∷ of_lane i log else of_lane i log
