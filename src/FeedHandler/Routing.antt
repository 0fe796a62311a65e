-- ===== src/FeedHandler/Routing.antt =====
-- Where the feed handler (src/feed_handler.cpp) puts the commands.
use hyperliquid_matching_eng.Base.{
  ℕ, ◌+◌, ◌≤◌, ◌≡◌, some, List, [], ◌∷◌, ◌++◌, length, if◌then◌else◌, ◌==◌,
}
use hyperliquid_matching_eng.Command.{OrderCommand}
use hyperliquid_matching_eng.SpscQueue.{SpscQueue, capacity}
use hyperliquid_matching_eng.SpscQueue.Fifo.{Holds}
use hyperliquid_matching_eng.FeedHandler.{Queues, queue_of}

-- The commands for a symbol, in order.
unfoldable pub for_symbol : ℕ → List OrderCommand → List OrderCommand
for_symbol i [] = []
for_symbol i (c ∷ cs) = if c.symbol_id == i then c ∷ for_symbol i cs else for_symbol i cs

-- The queues of the feed hold, for each symbol, the commands that `held` names.
abbrev pub AllHold : Queues → (ℕ → List OrderCommand) → Type 0
AllHold qs held = (i : ℕ) (q : SpscQueue OrderCommand) → queue_of qs i ≡ some q → Holds q (held i)

-- Each queue has room for the commands that it holds and those that come for its symbol.
abbrev pub Room : Queues → (ℕ → List OrderCommand) → List OrderCommand → Type 0
Room qs held cs =
    (i : ℕ) (q : SpscQueue OrderCommand)
    → queue_of qs i ≡ some q
    → length (held i) + length (for_symbol i cs) ≤ capacity q

-- What the queues hold after one command.
abbrev after_one : OrderCommand → (ℕ → List OrderCommand) → ℕ → List OrderCommand
after_one c held i = if c.symbol_id == i then held i ++ c ∷ [] else held i

-- Every queue of the feed is still there, and holds what `held` names.
abbrev pub Delivered : Queues → Queues → (ℕ → List OrderCommand) → Type 0
Delivered qs rs held =
    (i : ℕ) (q : SpscQueue OrderCommand)
    → queue_of qs i ≡ some q
    → (r : SpscQueue OrderCommand) × (queue_of rs i ≡ some r) × Holds r (held i)
