-- ===== src/FeedHandler.antt =====
-- src/feed_handler.cpp: the commands of the input file are handed out to one queue per symbol.
-- Opening and mapping the file are outside; the loop starts from the commands that it holds.
pub mod Routing
use hyperliquid_matching_eng.Base.{ℕ, ◌+◌, List, [], ◌∷◌, Option, none, some, get_elem?, set, ◌>>=◌}
use hyperliquid_matching_eng.Command.{OrderCommand}
use hyperliquid_matching_eng.SpscQueue.{SpscQueue, push_or_wait}

-- `queues_`; a null pointer is `none`.
abbrev pub Queues : Type 0
Queues = List (Option (SpscQueue OrderCommand))

pub record Feed : Type 0 where
  pub queues : Queues
  pub count : ℕ

-- `symbol_id >= queues_.size() || !queues_[symbol_id]`
unfoldable pub queue_of : Queues → ℕ → Option (SpscQueue OrderCommand)
queue_of qs i = elim (get_elem? qs i) [ none ↦ none | some q ↦ q ]

-- The body of the loop: a command for no queue is skipped.
unfoldable pub feed_one : OrderCommand → Feed → Option Feed
unfolding queue_of
feed_one cmd f = elim (queue_of f.queues cmd.symbol_id) [
  | none ↦ some f
  | some queue ↦ do
    q ← push_or_wait cmd queue
    some (record { queues = set f.queues cmd.symbol_id (some q); count = f.count + 1 })
]

unfoldable pub feed_all : List OrderCommand → Feed → Option Feed
unfolding feed_one
feed_all [] f = some f
feed_all (cmd ∷ cmds) f = do f' ← feed_one cmd f; feed_all cmds f'
