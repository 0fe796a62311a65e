-- ===== src/Book/Uncrossed.antt =====
-- The best prices of the two sides do not cross (include/hyperliquid/order_book.h): what each handler
-- makes of the best bid and the best ask that the book records.
use hyperliquid_matching_eng.Base.{
  ℕ, ◌<◌, ◌≡◌, ◌≢◌, true, false, arith, some, inl, inr, Bool-cases, ap, not, ◌&&◌, Option,
}
use hyperliquid_matching_eng.Base.Int.{◌-ℤ◌, ◌<ℤ◌, ◌≤ℤ◌, 0ℤ}
use hyperliquid_matching_eng.Types.{OrderId, Tick, Quantity, Timestamp, Side, bid, ask, has_stp}
use hyperliquid_matching_eng.Command.{OrderCommand, exec_result}
use hyperliquid_matching_eng.Order.{Order}
use hyperliquid_matching_eng.PriceLevels.{PriceLevels, is_valid_price}
use hyperliquid_matching_eng.FlatMap
use hyperliquid_matching_eng.Book.State.{OrderBook, OrderEntry, levels_of, empty_of, opposite}
use hyperliquid_matching_eng.Book.Matching.{check_fok_liquidity}
use hyperliquid_matching_eng.Book.Submit.{submit_limit, submit_market, rests, is_fok, incoming}
use hyperliquid_matching_eng.Book.Cancel.{cancel}
use hyperliquid_matching_eng.Book.Matched.{Matched}
use hyperliquid_matching_eng.Book.Filling.{IsStopped}
use hyperliquid_matching_eng.Book.Sides.{Recedes, IsArray, valid-bounds}
use hyperliquid_matching_eng.Book.Takers.{
  Announced, IsBook-side, submit_limit-taker, killed_lem, submit_market_lem,
}
use hyperliquid_matching_eng.Book.Cancels.{IsLive}
use hyperliquid_matching_eng.Book.Cancelled.{cancel-IsSound}
use hyperliquid_matching_eng.Book.Resting.{Rested}
use hyperliquid_matching_eng.Book.Limits.{Settled, submit_limit_lem, own_side}
use hyperliquid_matching_eng.Book.Sound.{IsSound, Announced-IsSound, Matched-IsSound}

abbrev pub IsUncrossed : OrderBook → Type 0
IsUncrossed b = b.bids.best_bid < b.asks.best_ask

pub Announced-IsUncrossed : (b b' : OrderBook) → IsUncrossed b → Announced b b' → IsUncrossed b'
Announced-IsUncrossed b b' u a = rw (a.bids, a.asks) u

-- A best price that recedes does not cross.
pub Recedes-IsUncrossed :
    (s : Side) (b b' : OrderBook)
    → IsUncrossed b
    → Recedes s (levels_of s b) (levels_of s b')
    → levels_of (opposite s) b' ≡ levels_of (opposite s) b
    → IsUncrossed b'
Recedes-IsUncrossed bid b b' u r e = rw e (omega arith)
Recedes-IsUncrossed ask b b' u r e = rw e (omega arith)

pub Matched-IsUncrossed :
    (s : Side) (l : Tick) (q t : Quantity) (b b' : OrderBook)
    → IsUncrossed b
    → Matched s l q b t b'
    → IsUncrossed b'
Matched-IsUncrossed s l q t b b' u m = Recedes-IsUncrossed s b b' u m.recedes m.other

-- What rests without self-trade prevention stands behind the best price of the other side.
Rested-IsUncrossed :
    (s : Side) (cmd : OrderCommand) (remaining : Quantity) (b b' : OrderBook)
    → IsUncrossed b
    → IsArray (levels_of s b)
    → is_valid_price (levels_of s b) cmd.price_ticks ≡ true
    → has_stp cmd.flags ≡ false
    → 0ℤ <ℤ remaining
    → IsStopped (opposite s) (incoming cmd cmd.price_ticks) remaining b
    → Rested s cmd remaining b b'
    → IsUncrossed b'
Rested-IsUncrossed bid cmd q b b' u v good off more stop r =
    let w = valid-bounds b.bids cmd.price_ticks good in
    let e : b'.asks.best_ask ≡ b.asks.best_ask = ap (λ (p : PriceLevels). p.best_ask) r.other in
    elim stop [
      | inl used ↦ absurd (omega arith)
      | inr (inl bare) ↦ ground (arith, r.best, v.band.high)
      | inr (inr (inl past)) ↦ ground (arith, r.best)
      | inr (inr (inr on)) ↦ absurd (ground arith)
    ]
Rested-IsUncrossed ask cmd q b b' u v good off more stop r =
    let w = valid-bounds b.asks cmd.price_ticks good in
    let e : b'.bids.best_bid ≡ b.bids.best_bid = ap (λ (p : PriceLevels). p.best_bid) r.other in
    elim stop [
      | inl used ↦ absurd (omega arith)
      | inr (inl bare) ↦ ground (arith, r.best, v.band.low)
      | inr (inr (inl past)) ↦ ground (arith, r.best)
      | inr (inr (inr on)) ↦ absurd (ground arith)
    ]

-- A handler that returns, and leaves a sound book whose best prices do not cross.
abbrev pub KeepsUncrossed {ℓ} : {A : Type ℓ} → Option (A × OrderBook) → Type ℓ
KeepsUncrossed {A = A} done =
    (r : A) × (b' : OrderBook) × (done ≡ some (r, b')) × IsSound b' × IsUncrossed b'

module _ (now_ns : ℕ → Timestamp) where
  Settled-IsUncrossed :
      (cmd : OrderCommand) (t : Quantity) (m r : OrderBook)
      → IsUncrossed m
      → IsArray (levels_of cmd.side m)
      → is_valid_price (levels_of cmd.side m) cmd.price_ticks ≡ true
      → has_stp cmd.flags ≡ false
      → IsStopped (opposite cmd.side) (incoming cmd cmd.price_ticks) (cmd.qty -ℤ t) m
      → Settled cmd (cmd.qty -ℤ t) m r
      → IsUncrossed r
  Settled-IsUncrossed cmd t m r u v good off stop (inl (none_left, same)) = rw same u
  Settled-IsUncrossed cmd t m r u v good off stop (inr (more, rested)) =
      Rested-IsUncrossed cmd.side cmd (cmd.qty -ℤ t) m r u v good off more stop rested

  submit_limit-rests :
      (cmd : OrderCommand) (b : OrderBook)
      → IsSound b
      → IsUncrossed b
      → rests cmd.tif ≡ true
      → is_valid_price (levels_of cmd.side b) cmd.price_ticks ≡ true
      → cmd.order_id ≢ FlatMap.empty_key
      → 0ℤ ≤ℤ cmd.qty
      → has_stp cmd.flags ≡ false
      → KeepsUncrossed (submit_limit now_ns cmd b)
  submit_limit-rests cmd b v u rest good id hq off =
      let s = opposite cmd.side in
      let (t, m, r, b', e, ok, stop, done, a, w) =
        submit_limit_lem now_ns cmd b v rest good id hq in
      let sound = Matched-IsSound s cmd.price_ticks cmd.qty t b m v ok in
      let valid : is_valid_price (levels_of cmd.side m) cmd.price_ticks ≡ true =
        rw (own_side cmd.side b m ok.other) good in
      let settled =
        Settled-IsUncrossed cmd t m r (Matched-IsUncrossed s cmd.price_ticks cmd.qty t b m u ok)
          (IsBook-side cmd.side m sound.book).array valid off stop done in
      (exec_result t (cmd.qty -ℤ t), b', e, w, Announced-IsUncrossed r b' settled a)

  -- On a sound book whose best bid is below its best ask, a limit order without self-trade
  -- prevention, of any time in force, with a price of the band, an identifier that is not the empty
  -- key and a quantity that is not negative, always returns, and leaves such a book.
  pub submit_limit-KeepsUncrossed :
      (cmd : OrderCommand) (b : OrderBook)
      → IsSound b
      → IsUncrossed b
      → is_valid_price (levels_of cmd.side b) cmd.price_ticks ≡ true
      → cmd.order_id ≢ FlatMap.empty_key
      → 0ℤ ≤ℤ cmd.qty
      → has_stp cmd.flags ≡ false
      → KeepsUncrossed (submit_limit now_ns cmd b)
  submit_limit-KeepsUncrossed cmd b v u good id hq off = elim (Bool-cases (rests cmd.tif)) [
    | inl rest ↦ submit_limit-rests cmd b v u rest good id hq off
    | inr taker ↦
        let s = opposite cmd.side in
        let enough = check_fok_liquidity s cmd.qty cmd.price_ticks b in
        elim (Bool-cases (is_fok cmd.tif && not enough)) [
          | inl killed ↦
              let (b', e, a) = killed_lem now_ns cmd b v.book (ground arith) (ground arith) in
              (exec_result 0ℤ 0ℤ, b', e, Announced-IsSound b b' v a, Announced-IsUncrossed b b' u a)
          | inr pass ↦
              let (t, m, b', e, ok, stop, a) =
                submit_limit-taker now_ns cmd b hq v.book taker pass in
              (
                exec_result t 0ℤ,
                b',
                e,
                Announced-IsSound m b' (Matched-IsSound s cmd.price_ticks cmd.qty t b m v ok) a,
                Announced-IsUncrossed m b'
                    (Matched-IsUncrossed s cmd.price_ticks cmd.qty t b m u ok) a,
              )
        ]
  ]

  pub submit_market-KeepsUncrossed :
      (cmd : OrderCommand) (b : OrderBook)
      → IsSound b
      → IsUncrossed b
      → 0ℤ ≤ℤ cmd.qty
      → KeepsUncrossed (submit_market now_ns cmd b)
  submit_market-KeepsUncrossed cmd b v u hq =
      let s = opposite cmd.side in
      let (t, m, b', e, ok, stop, a) = submit_market_lem now_ns cmd b hq v.book in
      (
        exec_result t (cmd.qty -ℤ t),
        b',
        e,
        Announced-IsSound m b' (Matched-IsSound s (empty_of s) cmd.qty t b m v ok) a,
        Announced-IsUncrossed m b' (Matched-IsUncrossed s (empty_of s) cmd.qty t b m u ok) a,
      )

  pub cancel-KeepsUncrossed :
      (id : OrderId) (b : OrderBook) (e : OrderEntry) (o : Order)
      → IsLive id b e o
      → IsSound b
      → IsUncrossed b
      → KeepsUncrossed (cancel now_ns id b)
  cancel-KeepsUncrossed id b e o w v u =
      let (b', eq, k, r) = cancel-IsSound now_ns id b e o w v in
      (true, b', eq, k, Recedes-IsUncrossed e.side b b' u r.recedes r.other)
