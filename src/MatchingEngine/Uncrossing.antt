-- ===== src/MatchingEngine/Uncrossing.antt =====
-- No command without self-trade prevention makes the best prices of a book cross
-- (src/matching_engine.cpp, include/hyperliquid/order_book.h).
use hyperliquid_matching_eng.Base.{
  ℕ, ◌≡◌, ◌≢◌, arith, refl, true, false, some, Option, inl, inr, Bool, Bool-cases, ◌∙◌, ap, ◌&&◌,
  ◌==◌,
}
use hyperliquid_matching_eng.Base.Int.{◌<ℤ◌, ◌≤ℤ◌, ltb_ℤ, 0ℤ}
use hyperliquid_matching_eng.Types.{
  OrderId, Tick, Quantity, Timestamp, has_stp, CommandType, new_order, cancel_order, modify_order,
}
use hyperliquid_matching_eng.Command.{OrderCommand, exec_result}
use hyperliquid_matching_eng.Order.{Order}
use hyperliquid_matching_eng.PriceLevels.{PriceLevels, is_valid_price}
use hyperliquid_matching_eng.FlatMap
use hyperliquid_matching_eng.Book.State.{OrderBook, OrderEntry, levels_of}
use hyperliquid_matching_eng.Book.Cancel.{modify, replace, replacement}
use hyperliquid_matching_eng.Book.Cancels.{IsLive}
use hyperliquid_matching_eng.Book.Cancelled.{cancel-IsSound}
use hyperliquid_matching_eng.Book.InPlace.{resize_in_place_lem, modify-live}
use hyperliquid_matching_eng.Book.Modifies.{
  ticked, levels_of-ticked, ticked-IsSound, ticked-IsLive, valid-same,
}
use hyperliquid_matching_eng.Book.Sound.{IsSound}
use hyperliquid_matching_eng.Book.Uncrossed.{
  IsUncrossed, Recedes-IsUncrossed, KeepsUncrossed, submit_limit-KeepsUncrossed,
  submit_market-KeepsUncrossed, cancel-KeepsUncrossed,
}
use hyperliquid_matching_eng.MatchingEngine.{is_limit, book_of, dispatch, process_new}
use hyperliquid_matching_eng.MatchingEngine.Serving.{IsSane, cancel-unknown, modify-unknown}

-- A command that submits no order with self-trade prevention: a modification submits the order that
-- it replaces, with its flags.
abbrev pub NoPrevention : CommandType → OrderCommand → OrderBook → Type 0
NoPrevention new_order cmd b = has_stp cmd.flags ≡ false
NoPrevention cancel_order cmd b = Unit {0}
NoPrevention modify_order cmd b =
    (e : OrderEntry) (o : Order) → IsLive cmd.order_id b e o → has_stp o.flags ≡ false

module _ (now_ns : ℕ → Timestamp) where
  replace-KeepsUncrossed :
      (id : OrderId) (b : OrderBook) (e : OrderEntry) (o : Order) (px : Tick) (q : Quantity)
      → IsLive id b e o
      → IsSound b
      → IsUncrossed b
      → is_valid_price (levels_of e.side b) px ≡ true
      → id ≢ FlatMap.empty_key
      → 0ℤ ≤ℤ q
      → has_stp o.flags ≡ false
      → KeepsUncrossed (replace now_ns id e o px q b)
  unfolding replace
  replace-KeepsUncrossed id b e o px q w v u good key hq off =
      let (c, eq, k, r) =
        cancel-IsSound now_ns id (ticked b) e o (ticked-IsLive id b e o w) (ticked-IsSound b v) in
      let cmd = replacement now_ns id e o px q (now_ns b.clock_reads) in
      let valid : is_valid_price (levels_of e.side c) px ≡ true =
        valid-same (levels_of e.side b) (levels_of e.side c) px
          (r.band ∙ ap (λ (z : PriceLevels). z.band) (levels_of-ticked e.side b)) good in
      let still : IsUncrossed c = Recedes-IsUncrossed e.side (ticked b) c u r.recedes r.other in
      let (z, b', f, y, x) = submit_limit-KeepsUncrossed now_ns cmd c k still valid key hq off in
      (z, b', rw eq f, y, x)

  modify-KeepsUncrossed :
      (id : OrderId) (b : OrderBook) (e : OrderEntry) (o : Order) (px : Tick) (q : Quantity)
      → IsLive id b e o
      → IsSound b
      → IsUncrossed b
      → is_valid_price (levels_of e.side b) px ≡ true
      → id ≢ FlatMap.empty_key
      → 0ℤ <ℤ q
      → has_stp o.flags ≡ false
      → KeepsUncrossed (modify now_ns id px q b)
  modify-KeepsUncrossed id b e o px q w v u good key pos off =
      rw (modify-live now_ns id b e o w px q)
        (elim (Bool-cases ((px == e.price) && ltb_ℤ q o.qty)) [
          | inl in_place ↦
              let (b', f, r, k) = resize_in_place_lem now_ns id b e o w q v pos in
              rw in_place
                (exec_result 0ℤ q, b', f, k, Recedes-IsUncrossed e.side b b' u r.recedes r.other)
          | inr moved ↦
              rw moved (replace-KeepsUncrossed id b e o px q w v u good key (omega arith) off)
        ])

  book_of-KeepsUncrossed {ℓ} :
      {A : Type ℓ} (done : Option (A × OrderBook))
      → KeepsUncrossed done
      → (b' : OrderBook) × (book_of done ≡ some b') × IsSound b' × IsUncrossed b'
  book_of-KeepsUncrossed answer (r, b', e, k, u) = (b', rw e refl, k, u)

  -- On a sound book whose best bid is below its best ask, every sane command without self-trade
  -- prevention (a new order that does not ask for it, a cancellation, or a modification of an
  -- order that does not) returns, and leaves a sound book whose best bid is below its best ask.
  pub dispatch-IsUncrossed :
      (cmd : OrderCommand) (b : OrderBook)
      → IsSound b
      → IsUncrossed b
      → IsSane cmd.type cmd b
      → NoPrevention cmd.type cmd b
      → (b' : OrderBook) × (dispatch now_ns cmd.type cmd b ≡ some b') × IsSound b' × IsUncrossed b'
  unfolding dispatch process_new
  dispatch-IsUncrossed cmd b v u sane off = serve cmd.type sane off
    where
      placed :
          (is_limit_order : Bool)
          → IsSane new_order cmd b
          → has_stp cmd.flags ≡ false
          → (b' : OrderBook) × (process_new now_ns is_limit_order cmd b ≡ some b')
            × IsSound b'
            × IsUncrossed b'
      placed true (band, id, hq) off =
          book_of-KeepsUncrossed _
            (submit_limit-KeepsUncrossed now_ns cmd b v u (band cmd.side) id hq off)
      placed false (band, id, hq) off =
          book_of-KeepsUncrossed _ (submit_market-KeepsUncrossed now_ns cmd b v u hq)

      serve :
          (type : CommandType)
          → IsSane type cmd b
          → NoPrevention type cmd b
          → (b' : OrderBook) × (dispatch now_ns type cmd b ≡ some b') × IsSound b' × IsUncrossed b'
      serve new_order sane off = placed (is_limit cmd.order_type) sane off
      serve cancel_order (inl unknown) off =
          (b, rw (cancel-unknown now_ns cmd.order_id b unknown) refl, v, u)
      serve cancel_order (inr (e, o, w)) off =
          book_of-KeepsUncrossed _ (cancel-KeepsUncrossed now_ns cmd.order_id b e o w v u)
      serve modify_order (band, id, pos, inl unknown) off =
          (b, rw (modify-unknown now_ns cmd.order_id cmd.price_ticks cmd.qty b unknown) refl, v, u)
      serve modify_order (band, id, pos, inr (e, o, w)) off = book_of-KeepsUncrossed _ (
          modify-KeepsUncrossed cmd.order_id b e o cmd.price_ticks cmd.qty w v u (band e.side) id
            pos (off e o w))
