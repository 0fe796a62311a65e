-- ===== src/MatchingEngine/Serving.antt =====
-- Every command that the engine takes is served (src/matching_engine.cpp,
-- include/hyperliquid/order_book.h).
use hyperliquid_matching_eng.Base.{
  ℕ, ◌+◌, ◌≤◌, ◌≡◌, ◌≢◌, refl, Bool, true, false, arith, none, some, Option, inl, inr, ◌⊎◌,
  Bool-cases, not, ◌&&◌, List, [], ◌++◌, length,
}
use hyperliquid_matching_eng.Base.Int.{◌<ℤ◌, ◌≤ℤ◌, ◌-ℤ◌, 0ℤ}
use hyperliquid_matching_eng.Types.{
  OrderId, Tick, Quantity, Timestamp, Side, CommandType, new_order, cancel_order, modify_order,
}
use hyperliquid_matching_eng.Command.{OrderCommand, exec_result, AnyEvent}
use hyperliquid_matching_eng.Order.{Order}
use hyperliquid_matching_eng.PriceLevels.{is_valid_price}
use hyperliquid_matching_eng.FlatMap
use hyperliquid_matching_eng.Book.State.{OrderBook, OrderEntry, levels_of, opposite, empty_of}
use hyperliquid_matching_eng.Book.Matching.{check_fok_liquidity}
use hyperliquid_matching_eng.Book.Submit.{submit_limit, submit_market, rests, is_fok}
use hyperliquid_matching_eng.Book.Cancel.{cancel, modify}
use hyperliquid_matching_eng.Book.Takers.{submit_market_lem, submit_limit-taker, killed_lem}
use hyperliquid_matching_eng.Book.Cancels.{IsLive}
use hyperliquid_matching_eng.Book.Cancelled.{cancel-IsSound}
use hyperliquid_matching_eng.Book.Limits.{submit_limit_lem}
use hyperliquid_matching_eng.Book.Modifies.{modify-Modified}
use hyperliquid_matching_eng.Book.Sound.{IsSound, Announced-IsSound, Matched-IsSound}
use hyperliquid_matching_eng.MatchingEngine.{
  MatchingEngine, is_limit, book_of, dispatch, process_new, process,
}
use hyperliquid_matching_eng.MatchingEngine.Output.{push_events-Holds}
use hyperliquid_matching_eng.SpscQueue.{capacity}
use hyperliquid_matching_eng.SpscQueue.Fifo.{Holds}

-- The index does not know the identifier, or leads to the order.
abbrev pub IsKnown : OrderId → OrderBook → Type 0
IsKnown id b =
    (FlatMap.find b.id_index id ≡ none) ⊎ ((e : OrderEntry) × (o : Order) × IsLive id b e o)

abbrev pub InBand : OrderBook → Tick → Type 0
InBand b px = (s : Side) → is_valid_price (levels_of s b) px ≡ true

-- What a command has to be for the book to serve it: an order that is not empty has a price of the
-- band, an identifier that is not the index's empty key and a quantity that is not negative.
abbrev pub IsSane : CommandType → OrderCommand → OrderBook → Type 0
IsSane new_order cmd b =
    InBand b cmd.price_ticks × (cmd.order_id ≢ FlatMap.empty_key) × (0ℤ ≤ℤ cmd.qty)
IsSane cancel_order cmd b = IsKnown cmd.order_id b
IsSane modify_order cmd b =
    InBand b cmd.price_ticks
    × (cmd.order_id ≢ FlatMap.empty_key)
    × (0ℤ <ℤ cmd.qty)
    × IsKnown cmd.order_id b

-- A handler that returns, and leaves a sound book.
abbrev pub Serves {ℓ} : {A : Type ℓ} → Option (A × OrderBook) → Type ℓ
Serves {A = A} done = (r : A) × (b' : OrderBook) × (done ≡ some (r, b')) × IsSound b'

-- The book with the events of the commands before taken away.
abbrev pub cleared : OrderBook → OrderBook
cleared b = record b { events = [] }

pub cleared-IsSound : (b : OrderBook) → IsSound b → IsSound (cleared b)
cleared-IsSound b v = record {
  book = record { bids = v.book.bids; asks = v.book.asks; table = v.book.table };
  shared = v.shared;
}

module _ (now_ns : ℕ → Timestamp) where
  submit_market-Serves :
      (cmd : OrderCommand) (b : OrderBook)
      → IsSound b
      → 0ℤ ≤ℤ cmd.qty
      → Serves (submit_market now_ns cmd b)
  submit_market-Serves cmd b v hq =
      let (t, m, b', e, ok, stop, a) = submit_market_lem now_ns cmd b hq v.book in
      let s = opposite cmd.side in
      (
        exec_result t (cmd.qty -ℤ t),
        b',
        e,
        Announced-IsSound m b' (Matched-IsSound s (empty_of s) cmd.qty t b m v ok) a,
      )

  pub submit_limit-Serves :
      (cmd : OrderCommand) (b : OrderBook)
      → IsSound b
      → InBand b cmd.price_ticks
      → cmd.order_id ≢ FlatMap.empty_key
      → 0ℤ ≤ℤ cmd.qty
      → Serves (submit_limit now_ns cmd b)
  submit_limit-Serves cmd b v band id hq = elim (Bool-cases (rests cmd.tif)) [
    | inl rest ↦
        let (t, m, r, b', e, ok, stop, done, a, w) =
          submit_limit_lem now_ns cmd b v rest (band cmd.side) id hq in
        (exec_result t (cmd.qty -ℤ t), b', e, w)
    | inr taker ↦
        let enough = check_fok_liquidity (opposite cmd.side) cmd.qty cmd.price_ticks b in
        elim (Bool-cases (is_fok cmd.tif && not enough)) [
          | inl killed ↦
              let (b', e, a) = killed_lem now_ns cmd b v.book (ground arith) (ground arith) in
              (exec_result 0ℤ 0ℤ, b', e, Announced-IsSound b b' v a)
          | inr pass ↦
              let (t, m, b', e, ok, stop, a) =
                submit_limit-taker now_ns cmd b hq v.book taker pass in
              let s = opposite cmd.side in
              (
                exec_result t 0ℤ,
                b',
                e,
                Announced-IsSound m b' (Matched-IsSound s cmd.price_ticks cmd.qty t b m v ok) a,
              )
        ]
  ]

  pub cancel-unknown :
      (id : OrderId) (b : OrderBook)
      → FlatMap.find b.id_index id ≡ none
      → cancel now_ns id b ≡ some (false, b)
  unfolding cancel
  cancel-unknown id b unknown = rw (unknown, cancel) refl

  pub modify-unknown :
      (id : OrderId) (px : Tick) (q : Quantity) (b : OrderBook)
      → FlatMap.find b.id_index id ≡ none
      → modify now_ns id px q b ≡ some (exec_result 0ℤ 0ℤ, b)
  unfolding modify
  modify-unknown id px q b unknown = rw (unknown, modify) refl

  pub cancel-Serves :
      (id : OrderId) (b : OrderBook) → IsSound b → IsKnown id b → Serves (cancel now_ns id b)
  cancel-Serves id b v (inl unknown) = (false, b, cancel-unknown id b unknown, v)
  cancel-Serves id b v (inr (e, o, w)) =
      let (b', eq, k, r) = cancel-IsSound now_ns id b e o w v in (true, b', eq, k)

  modify-Serves :
      (id : OrderId) (px : Tick) (q : Quantity) (b : OrderBook)
      → IsSound b
      → InBand b px
      → id ≢ FlatMap.empty_key
      → 0ℤ <ℤ q
      → IsKnown id b
      → Serves (modify now_ns id px q b)
  modify-Serves id px q b v band key pos (inl unknown) =
      (exec_result 0ℤ 0ℤ, b, modify-unknown id px q b unknown, v)
  modify-Serves id px q b v band key pos (inr (e, o, w)) =
      let (r, b', eq, adds, k, how) =
        modify-Modified now_ns id b e o w px q v (band e.side) key pos in
      (r, b', eq, k)

  book_of-Serves {ℓ} :
      {A : Type ℓ} (done : Option (A × OrderBook))
      → Serves done
      → (b' : OrderBook) × (book_of done ≡ some b') × IsSound b'
  book_of-Serves answer (r, b', e, k) = (b', rw e refl, k)

  process_new-IsSound :
      (is_limit_order : Bool) (cmd : OrderCommand) (b : OrderBook)
      → IsSound b
      → IsSane new_order cmd b
      → (b' : OrderBook) × (process_new now_ns is_limit_order cmd b ≡ some b') × IsSound b'
  unfolding process_new
  process_new-IsSound true cmd b v (band, id, hq) =
      book_of-Serves _ (submit_limit-Serves cmd b v band id hq)
  process_new-IsSound false cmd b v (band, id, hq) =
      book_of-Serves _ (submit_market-Serves cmd b v hq)

  -- On a sound book, every sane command returns and leaves a sound book.
  pub dispatch-IsSound :
      (cmd : OrderCommand) (b : OrderBook)
      → IsSound b
      → IsSane cmd.type cmd b
      → (b' : OrderBook) × (dispatch now_ns cmd.type cmd b ≡ some b') × IsSound b'
  unfolding dispatch
  dispatch-IsSound cmd b v sane = serve cmd.type sane
    where
      serve :
          (type : CommandType)
          → IsSane type cmd b
          → (b' : OrderBook) × (dispatch now_ns type cmd b ≡ some b') × IsSound b'
      serve new_order sane = process_new-IsSound (is_limit cmd.order_type) cmd b v sane
      serve cancel_order known = book_of-Serves _ (cancel-Serves cmd.order_id b v known)
      serve modify_order (band, id, pos, known) =
          book_of-Serves _
            (modify-Serves cmd.order_id cmd.price_ticks cmd.qty b v band id pos known)

  -- On a sound book (its sides and its index are well formed, and every node of the pool is free
  -- or holds one order that rests, never both), every sane command returns and leaves a sound
  -- book: a new order, limit or market, of any time in force, with a price of the band, an
  -- identifier that is not the empty key and a quantity that is not negative; a cancellation of
  -- an identifier that the index does not know, or whose entry leads to its order; a modification
  -- with a price of the band and a positive quantity of such an identifier. If the output queue
  -- has room for the events of the command, `process` returns with that book, and the queue holds
  -- the events behind those that it held.
  pub process-IsSound :
      (cmd : OrderCommand) (e : MatchingEngine) (xs : List AnyEvent)
      → IsSound e.order_book
      → IsSane cmd.type cmd (cleared e.order_book)
      → Holds e.config.output_queue xs
      → (b' : OrderBook) × (dispatch now_ns cmd.type cmd (cleared e.order_book) ≡ some b')
        × IsSound b'
        × (length xs + length b'.events ≤ capacity e.config.output_queue
            → (e' : MatchingEngine) × (process now_ns cmd e ≡ some e')
              × (e'.order_book ≡ b')
              × Holds e'.config.output_queue (xs ++ b'.events))
  unfolding process
  process-IsSound cmd e xs v sane queue =
      let (b', eq, k) =
        dispatch-IsSound cmd (cleared e.order_book) (cleared-IsSound e.order_book v) sane in
      (
        b',
        eq,
        k,
        λ room.
            let (r, f, h) = push_events-Holds b'.events xs e.config.output_queue queue room in
            (
              record { config = record (e.config) { output_queue = r }; order_book = b' },
              rw (eq, f) refl,
              refl,
              h,
            ),
      )
