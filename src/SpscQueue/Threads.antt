-- ===== src/SpscQueue/Threads.antt =====
-- The producer and the consumer of include/hyperliquid/spsc_queue.h as two threads whose loads and
-- stores interleave in any order. Each index is written by one thread, with release, and read by the
-- other, with acquire, so the steps are taken to happen one after another.
use hyperliquid_matching_eng.Base.{ℕ, suc, ◌≡◌, ◌≢◌, some, List, [], ◌∷◌, ◌++◌, get_elem?, set}
use hyperliquid_matching_eng.SpscQueue.{SpscQueue, next_index}

-- Where the producer stands in `push(item)`: before it, after the load of `tail_`, after the test for
-- room, after the write of the slot.
pub data Producer {ℓ} (T : Type ℓ) : Type ℓ where
  outside : Producer T
  loaded checked written : T → ℕ → Producer T

-- Where the consumer stands in `pop(item)`: before it, after the load of `head_`, after the test for
-- an item, after the read of the slot.
pub data Consumer {ℓ} (T : Type ℓ) : Type ℓ where
  outside : Consumer T
  loaded checked : ℕ → Consumer T
  taken : ℕ → T → Consumer T

-- `pushed` and `popped` are the items of the calls that have returned true, in order.
pub record Threads {ℓ} (T : Type ℓ) : Type ℓ where
  pub queue : SpscQueue T
  pub producer : Producer T
  pub consumer : Consumer T
  pub pushed : List T
  pub popped : List T

module _ {ℓ} {T : Type ℓ} where
  -- One step of `push`.
  pub data PushStep (s : Threads T) : Threads T → Type ℓ where
    load_tail :
        (item : T)
        → s.producer ≡ Producer.outside
        → PushStep s (record s { producer = Producer.loaded item s.queue.tail })
    refuse :
        {item : T} {t : ℕ}
        → s.producer ≡ Producer.loaded item t
        → next_index s.queue t ≡ s.queue.head
        → PushStep s (record s { producer = Producer.outside })
    pass :
        {item : T} {t : ℕ}
        → s.producer ≡ Producer.loaded item t
        → next_index s.queue t ≢ s.queue.head
        → PushStep s (record s { producer = Producer.checked item t })
    write :
        {item : T} {t : ℕ}
        → s.producer ≡ Producer.checked item t
        → PushStep s (record s {
          queue = record (s.queue) { buffer = set s.queue.buffer t item };
          producer = Producer.written item t;
        })
    store_tail :
        {item : T} {t : ℕ}
        → s.producer ≡ Producer.written item t
        → PushStep s (record s {
          queue = record (s.queue) { tail = next_index s.queue t };
          producer = Producer.outside;
          pushed = s.pushed ++ item ∷ [];
        })

  -- One step of `pop`.
  pub data PopStep (s : Threads T) : Threads T → Type ℓ where
    load_head :
        s.consumer ≡ Consumer.outside
        → PopStep s (record s { consumer = Consumer.loaded s.queue.head })
    give_up :
        {h : ℕ}
        → s.consumer ≡ Consumer.loaded h
        → h ≡ s.queue.tail
        → PopStep s (record s { consumer = Consumer.outside })
    go_on :
        {h : ℕ}
        → s.consumer ≡ Consumer.loaded h
        → h ≢ s.queue.tail
        → PopStep s (record s { consumer = Consumer.checked h })
    read :
        {h : ℕ} {item : T}
        → s.consumer ≡ Consumer.checked h
        → get_elem? s.queue.buffer h ≡ some item
        → PopStep s (record s { consumer = Consumer.taken h item })
    store_head :
        {h : ℕ} {item : T}
        → s.consumer ≡ Consumer.taken h item
        → PopStep s (record s {
          queue = record (s.queue) { head = next_index s.queue h };
          consumer = Consumer.outside;
          popped = s.popped ++ item ∷ [];
        })

  -- The states that two threads reach, in any order of their steps.
  pub data Interleaved (start : Threads T) : Threads T → Type ℓ where
    begin : Interleaved start start
    push_step : {s s' : Threads T} → Interleaved start s → PushStep s s' → Interleaved start s'
    pop_step : {s s' : Threads T} → Interleaved start s → PopStep s s' → Interleaved start s'

  -- A number of steps of the consumer alone.
  pub data PopSteps (start : Threads T) : ℕ → Threads T → Type ℓ where
    stays : PopSteps start 0 start
    goes_on :
        {n : ℕ} {s s' : Threads T} → PopSteps start n s → PopStep s s' → PopSteps start (suc n) s'

-- Both threads outside, over the constructor's queue.
unfoldable pub idle {ℓ} : {T : Type ℓ} → SpscQueue T → Threads T
idle q = record {
  queue = q;
  producer = Producer.outside;
  consumer = Consumer.outside;
  pushed = [];
  popped = [];
}
