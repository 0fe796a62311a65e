-- ===== src/NetworkFeed.antt =====
-- include/hyperliquid/network_feed_handler.h: a message from a client is parsed and handed to the
-- queue of its symbol. The sockets are outside; `now_ns` is the clock's answer.
use hyperliquid_matching_eng.Base.{
  ℕ, List, [], ◌∷◌, ◌++◌, Option, some, get_elem?, set, ◌>>=◌, Bool, true, false, if◌then◌else◌,
}
use hyperliquid_matching_eng.Command.{TradeEvent, BookUpdate}
use hyperliquid_matching_eng.SpscQueue.{SpscQueue, push_or_wait}
use hyperliquid_matching_eng.Json.{Bytes, trade_to_json, update_to_json}
use hyperliquid_matching_eng.Json.Parse.{WireCommand, failure, success, parse_order_command}

-- `broadcasts` holds what the server was told to send, `received` the commands that
-- `on_order_received_` was called with.
pub record NetworkFeed : Type 0 where
  pub output_queues : List (Option (SpscQueue WireCommand))
  pub running : Bool
  pub has_callback : Bool
  pub received : List WireCommand
  pub broadcasts : List Bytes

-- The calls of the server that `start` and `stop` make: none when nothing changes.
pub data ServerCall : Type 0 where
  start_server stop_server : ServerCall

unfoldable pub start : NetworkFeed → List ServerCall × NetworkFeed
start h = if h.running then ([], h) else (start_server ∷ [], record h { running = true })

unfoldable pub stop : NetworkFeed → List ServerCall × NetworkFeed
stop h = if h.running then (stop_server ∷ [], record h { running = false }) else ([], h)

unfoldable pub broadcast_trade : TradeEvent → NetworkFeed → NetworkFeed
broadcast_trade trade h = record h { broadcasts = h.broadcasts ++ trade_to_json trade ∷ [] }

unfoldable pub broadcast_book_update : BookUpdate → NetworkFeed → NetworkFeed
broadcast_book_update update h = record h {
  broadcasts = h.broadcasts ++ update_to_json update ∷ [];
}

-- `none` where the loop would wait for ever on a full queue that nobody pops.
abbrev route :
    WireCommand
    → List (Option (SpscQueue WireCommand))
    → Option (List (Option (SpscQueue WireCommand)))
route cmd qs = elim (get_elem? qs cmd.symbol_id) [
  | some (some q) ↦ do q' ← push_or_wait cmd q; some (set qs cmd.symbol_id (some q'))
  | _ ↦ some qs
]

abbrev notify : WireCommand → NetworkFeed → NetworkFeed
notify cmd h = record h { received = if h.has_callback then h.received ++ cmd ∷ [] else h.received }

unfoldable pub handle_message : ℕ → Bytes → NetworkFeed → Option NetworkFeed
handle_message now_ns msg h = do
  result ← parse_order_command msg
  elim result [
    | failure error ↦ some h
    | success command ↦ do
      let stamped = record command { recv_ts = now_ns }
      qs ← route stamped h.output_queues
      some (notify stamped (record h { output_queues = qs }))
  ]
