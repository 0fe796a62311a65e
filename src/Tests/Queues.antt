-- ===== src/Tests/Queues.antt =====
-- Runs of the queues and of what feeds and drains them: include/hyperliquid/spsc_queue.h,
-- src/matching_engine.cpp, src/feed_handler.cpp and src/publisher.cpp.
use hyperliquid_matching_eng.Base.{
  ℕ, ◌≡◌, refl, arith, true, false, List, [], ◌∷◌, ◌++◌, get_elem?, none, some, length, replicate,
  ◌<◌, ◌≤◌,
}
use hyperliquid_matching_eng.Base.Int.{pos}
use hyperliquid_matching_eng.Types.{tick, bid, limit, gtc, new_order}
use hyperliquid_matching_eng.Command.{OrderCommand, AnyEvent, trade, book_update}
use hyperliquid_matching_eng.SpscQueue.{SpscQueue, push, capacity}
use hyperliquid_matching_eng.SpscQueue.{init}
use hyperliquid_matching_eng.SpscQueue.Threads.{
  PopStep, PopSteps, Producer, Consumer, Threads, Interleaved, begin, push_step, idle, load_tail,
  pass, write, store_tail,
}
use hyperliquid_matching_eng.SpscQueue.Interleaving.{Interleaved-Holds}
use hyperliquid_matching_eng.SpscQueue.Popping.{Interleaved-pops}
use hyperliquid_matching_eng.SpscQueue.Fifo.{Holds, push-Holds}
use hyperliquid_matching_eng.FeedHandler.{Feed}
use hyperliquid_matching_eng.Publisher.{Publisher, drain}
use hyperliquid_matching_eng.Publisher.Logs.{Logged, drain_lem}

-- A ring of four slots that holds 7 and 8 and wraps round the end.
abbrev ring : SpscQueue ℕ
ring = record { size_n = 4; buffer = 8 ∷ 0 ∷ 0 ∷ 7 ∷ []; head = 3; tail = 1 }

ring-Holds : Holds ring (7 ∷ 8 ∷ [])
ring-Holds = record {
  slots = refl;
  head_in = omega arith;
  fits = omega arith;
  tail_at = refl;
  items = (refl, (refl, tt));
}

ring-room : length {A = ℕ} (7 ∷ 8 ∷ []) < capacity ring
unfolding capacity
ring-room = omega arith

push-Holds_example : (r : SpscQueue ℕ) × (push 9 ring ≡ (true, r)) × Holds r (7 ∷ 8 ∷ 9 ∷ [])
push-Holds_example = push-Holds ring 9 (7 ∷ 8 ∷ []) ring-Holds ring-room

abbrev sale : AnyEvent
sale = trade (record {
  ts = 1;
  taker_id = 2;
  maker_id = 3;
  symbol_id = 0;
  price_ticks = tick 100;
  qty = pos 5;
})

abbrev quote_update : AnyEvent
quote_update = book_update (record {
  ts = 2;
  symbol_id = 0;
  best_bid = tick 100;
  best_ask = tick 101;
  bid_qty = pos 5;
  ask_qty = pos 6;
})

abbrev events : SpscQueue AnyEvent
events = record { size_n = 4; buffer = sale ∷ sale ∷ sale ∷ sale ∷ []; head = 1; tail = 2 }

events-Holds : Holds events (sale ∷ [])
events-Holds = record {
  slots = refl;
  head_in = omega arith;
  fits = omega arith;
  tail_at = refl;
  items = (refl, tt);
}

abbrev logs : Publisher
logs = record { trades_log = []; book_updates_log = []; total_events = 0; work_done = false }

drain_lem_example :
    (r : SpscQueue AnyEvent) × (p' : Publisher) × (drain 2 events logs ≡ some (r, p'))
    × Holds r []
    × Logged logs p' (sale ∷ [])
drain_lem_example = drain_lem (sale ∷ []) events logs events-Holds

abbrev command : ℕ → ℕ → OrderCommand
command id symbol = record {
  type = new_order;
  recv_ts = 1;
  order_id = id;
  symbol_id = symbol;
  user_id = 7;
  price_ticks = tick 100;
  qty = pos 5;
  side = bid;
  order_type = limit;
  tif = gtc;
  flags = 0;
  stop_price = tick 0;
  display_qty = pos 0;
  expiry_ts = 0;
}

abbrev commands : SpscQueue OrderCommand
commands = record { size_n = 4; buffer = replicate 4 (command 0 0); head = 0; tail = 0 }

-- One queue, for the symbol 1.
abbrev feed : Feed
feed = record { queues = none ∷ some commands ∷ []; count = 0 }

abbrev nothing_held : ℕ → List OrderCommand
nothing_held i = []

abbrev file : List OrderCommand
file = command 1 1 ∷ command 2 0 ∷ command 3 1 ∷ []

-- A queue of two slots, into which the producer has pushed 5.
abbrev fresh : Threads ℕ
fresh = idle (init 2 (0 ∷ 0 ∷ []))

abbrev loaded_5 : Threads ℕ
loaded_5 = record {
  queue = record { size_n = 2; buffer = 0 ∷ 0 ∷ []; head = 0; tail = 0 };
  producer = Producer.loaded 5 0;
  consumer = Consumer.outside;
  pushed = [];
  popped = [];
}

abbrev written_5 : Threads ℕ
written_5 = record loaded_5 {
  queue = record { size_n = 2; buffer = 5 ∷ 0 ∷ []; head = 0; tail = 0 };
  producer = Producer.written 5 0;
}

abbrev pushed_5 : Threads ℕ
pushed_5 = record loaded_5 {
  queue = record { size_n = 2; buffer = 5 ∷ 0 ∷ []; head = 0; tail = 1 };
  producer = Producer.outside;
  pushed = 5 ∷ [];
}

fresh-pushed : Interleaved fresh pushed_5
unfolding idle init
fresh-pushed =
    push_step {s = written_5}
      (push_step {s = record loaded_5 { producer = Producer.checked 5 0 }} {s' = written_5}
        (push_step {s = loaded_5} (push_step {s' = loaded_5} begin (load_tail 5 refl))
          (pass refl (omega arith)))
        (write refl))
      (store_tail refl)

Interleaved-Holds_example :
    (xs : List ℕ) × Holds pushed_5.queue xs
    × (5 ∷ [] ≡ [] ++ xs)
    × (length xs ≤ capacity pushed_5.queue)
    × ((k : ℕ)
        → pushed_5.consumer ≡ Consumer.checked k
        → (y : ℕ) × (ys : List ℕ) × (xs ≡ y ∷ ys) × (get_elem? pushed_5.queue.buffer k ≡ some y))
Interleaved-Holds_example =
    Interleaved-Holds 2 (0 ∷ 0 ∷ []) pushed_5 refl (omega arith) fresh-pushed

Interleaved-pops_example :
    ((k : ℕ) (s' : Threads ℕ)
      → k < 4
      → PopSteps pushed_5 k s'
      → (s'.popped ≡ []) × ((s'' : Threads ℕ) × PopStep s' s''))
    × ((s' : Threads ℕ)
        → PopSteps pushed_5 4 s'
        → (s'.popped ≡ [] ++ 5 ∷ [])
          × (s'.pushed ≡ 5 ∷ [])
          × (s'.producer ≡ Producer.outside)
          × (s'.consumer ≡ Consumer.outside))
Interleaved-pops_example =
    Interleaved-pops 2 (0 ∷ 0 ∷ []) pushed_5 5 [] refl (omega arith) fresh-pushed refl refl
