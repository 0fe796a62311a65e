-- ===== src/Book/Takers.antt =====
-- `submit_market`, and `submit_limit` for the orders that never rest (immediate-or-cancel and
-- fill-or-kill), from include/hyperliquid/order_book.h.
use mathlib.Core.List.{append-nil}
use hyperliquid_matching_eng.Base.{
  ℕ, ◌≡◌, refl, true, false, arith, some, inl, inr, ℕ_discrete, Bool-cases, Option-cases, sym, ◌∙◌,
  List, [], ◌∷◌, ◌++◌, not, ◌&&◌, ◌==◌,
}
use hyperliquid_matching_eng.Base.Int.{◌-ℤ◌, ◌≤ℤ◌, ltb_ℤ, 0ℤ, -ℤ_parts, eq_of_parts, le-of_ltb_ℤ}
use hyperliquid_matching_eng.Types.{Tick, Quantity, Timestamp, Side, bid, ask}
use hyperliquid_matching_eng.Command.{OrderCommand, exec_result, AnyEvent, book_update}
use hyperliquid_matching_eng.PriceLevels.{PriceLevels, has_level, get_level}
use hyperliquid_matching_eng.FlatMap.Counting.{IsTable}
use hyperliquid_matching_eng.Book.State.{
  OrderBook, levels_of, best_of, empty_of, opposite, top_qty, emit_book_update, announce, update_of,
}
use hyperliquid_matching_eng.Book.Matching.{check_fok_liquidity, past_limit}
use hyperliquid_matching_eng.Book.Submit.{
  incoming, match_if_crossing, settle, submit_limit_side, submit_limit, submit_market, reply,
  is_fok, rests,
}
use hyperliquid_matching_eng.Book.Sides.{IsSide, IsMarked}
use hyperliquid_matching_eng.Book.Matched.{Matched, Matched-refl}
use hyperliquid_matching_eng.Book.Filling.{IsStopped}
use hyperliquid_matching_eng.Book.MatchLoop.{match_against_side_lem}

-- A book whose two sides and whose index are well formed.
pub record IsBook (b : OrderBook) : Type 0 where
  pub bids : IsSide bid b.bids
  pub asks : IsSide ask b.asks
  pub table : IsTable b.id_index

-- A report of the best prices appends to the events, and changes no side, index or pool.
pub record Announced (b b' : OrderBook) : Type 0 where
  pub bids : b'.bids ≡ b.bids
  pub asks : b'.asks ≡ b.asks
  pub id_index : b'.id_index ≡ b.id_index
  pub order_pool : b'.order_pool ≡ b.order_pool
  pub update : List AnyEvent
  pub events : b'.events ≡ b.events ++ update

pub IsBook-side : (s : Side) (b : OrderBook) → IsBook b → IsSide s (levels_of s b)
IsBook-side bid b v = v.bids
IsBook-side ask b v = v.asks

pub get_level-of_has_level :
    (p : PriceLevels) (px : Tick) → has_level p px ≡ true → (l : _) × (get_level p px ≡ some l)
unfolding has_level
get_level-of_has_level p px h = elim (Option-cases (get_level p px)) [
  | inl e ↦ absurd (ground arith)
  | inr (l, e) ↦ (l, e)
]

top_qty-of_IsMarked :
    (s : Side) (p : PriceLevels) → IsMarked s p → (q : Quantity) × (top_qty s p ≡ some q)
unfolding top_qty
top_qty-of_IsMarked s p m = elim (Bool-cases (best_of s p == empty_of s)) [
  | inl bare ↦ (0ℤ, rw bare)
  | inr held ↦ elim m [
    | inl e ↦ absurd (ground arith)
    | inr e ↦ let (l, f) = get_level-of_has_level p (best_of s p) e.0 in (l.total_qty, rw (held, f))
  ]
]

module _ (now_ns : ℕ → Timestamp) where
  abbrev announced : OrderBook → Quantity → Quantity → OrderBook
  announced = announce now_ns

  pub emit_book_update-Announced :
      (b : OrderBook)
      → IsMarked bid b.bids
      → IsMarked ask b.asks
      → (b' : OrderBook) × (emit_book_update now_ns b ≡ some b') × Announced b b'
  unfolding emit_book_update
  emit_book_update-Announced b v w =
      let (bq, e) = top_qty-of_IsMarked bid b.bids v in
      let (aq, f) = top_qty-of_IsMarked ask b.asks w in
      elim (Bool-cases b.on_book_update) [
        | inl on ↦ (
          announced b bq aq,
          ground arith,
          record {
            bids = refl;
            asks = refl;
            id_index = refl;
            order_pool = refl;
            update = book_update (update_of now_ns b bq aq) ∷ [];
            events = refl;
          },
        )
        | inr off ↦ (
          b,
          ground arith,
          record {
            bids = refl;
            asks = refl;
            id_index = refl;
            order_pool = refl;
            update = [];
            events = sym (append-nil b.events);
          },
        )
      ]

  pub reply-Answer {ℓ} :
      {A : Type ℓ} (r : A) (b : OrderBook)
      → IsMarked bid b.bids
      → IsMarked ask b.asks
      → (b' : OrderBook) × (reply now_ns r b ≡ some (r, b')) × Announced b b'
  reply-Answer r b v w = let (b', e, a) = emit_book_update-Announced b v w in (b', rw e refl, a)

  Matched-IsMarked :
      (s : Side) (l : Tick) (q t : Quantity) (b b' : OrderBook)
      → IsBook b
      → Matched s l q b t b'
      → IsMarked bid b'.bids × IsMarked ask b'.asks
  Matched-IsMarked bid l q t b b' v m = (m.side.marked, rw (m.other) (v.asks.marked))
  Matched-IsMarked ask l q t b b' v m = (rw (m.other) (v.bids.marked), m.side.marked)

  -- On a well-formed book, a market order of a quantity that is not negative always returns. Its
  -- answer splits its quantity into what it traded with the opposite side, at any price, and the
  -- rest; matching is that of `match_against_side`, and after it no side, index or pool changes.
  pub submit_market_lem :
      (cmd : OrderCommand) (b : OrderBook)
      → 0ℤ ≤ℤ cmd.qty
      → IsBook b
      → let s = opposite cmd.side in
        (traded : Quantity) × (matched b' : OrderBook) × (submit_market now_ns cmd b
          ≡ some (exec_result traded (cmd.qty -ℤ traded), b'))
        × Matched s (empty_of s) cmd.qty b traded matched
        × IsStopped s (incoming cmd (empty_of s)) (cmd.qty -ℤ traded) matched
        × Announced matched b'
  unfolding submit_market
  submit_market_lem cmd b hq v =
      let s = opposite cmd.side in
      let (t, m, e, ok, stop) =
        match_against_side_lem s (incoming cmd (empty_of s)) cmd.qty b hq (IsBook-side s b v)
          v.table in
      let (l, r) = Matched-IsMarked s (empty_of s) cmd.qty t b m v ok in
      let (b', f, a) = reply-Answer (exec_result t (cmd.qty -ℤ t)) m l r in
      (t, m, b', rw e f, ok, stop, a)

  -- The match of a limit order: nothing if the best price does not cross its own.
  pub match_if_crossing-Matched :
      (side : Side) (cmd : OrderCommand) (b : OrderBook)
      → 0ℤ ≤ℤ cmd.qty
      → IsBook b
      → let s = opposite side in
        (traded : Quantity) × (matched : OrderBook) × (match_if_crossing side cmd b
          ≡ some (traded, matched))
        × Matched s cmd.price_ticks cmd.qty b traded matched
        × IsStopped s (incoming cmd cmd.price_ticks) (cmd.qty -ℤ traded) matched
  unfolding match_if_crossing
  match_if_crossing-Matched side cmd b hq v =
      let s = opposite side in
      let best = best_of s (levels_of s b) in
      let still : Matched s cmd.price_ticks cmd.qty b 0ℤ b =
        Matched-refl s cmd.price_ticks cmd.qty b hq (IsBook-side s b v) v.table in
      elim (ℕ_discrete best (empty_of s)) [
        | yes bare ↦ (0ℤ, b, ground arith, still, inr (inl bare))
        | no held ↦ elim (Bool-cases (past_limit s best cmd.price_ticks)) [
          | inl past ↦ (0ℤ, b, ground arith, still, inr (inr (inl past)))
          | inr crossing ↦
              let (t, m, e, ok, stop) =
                match_against_side_lem s (incoming cmd cmd.price_ticks) cmd.qty b hq
                  (IsBook-side s b v) v.table in
              (t, m, ground arith, ok, stop)
        ]
      ]

  settle-taker :
      (side : Side) (cmd : OrderCommand) (traded : Quantity) (b : OrderBook)
      → traded ≤ℤ cmd.qty
      → rests cmd.tif ≡ false
      → settle now_ns side cmd traded b ≡ reply now_ns (exec_result traded 0ℤ) b
  unfolding settle
  settle-taker side cmd traded b h rest = elim (Bool-cases (ltb_ℤ 0ℤ (cmd.qty -ℤ traded))) [
    | inl more ↦ rw (more, rest) refl
    | inr none_left ↦
        let z : cmd.qty -ℤ traded ≡ 0ℤ =
          eq_of_parts _ _ (omega (arith, -ℤ_parts, le-of_ltb_ℤ 0ℤ (cmd.qty -ℤ traded) none_left)) in
        rw (none_left, z) refl
  ]

  -- On a well-formed book, an order of a quantity that is not negative that is
  -- immediate-or-cancel, or fill-or-kill and passes the liquidity check, always returns, with
  -- nothing remaining. It has matched with the opposite side as `match_against_side` does, within
  -- its limit; after the match no side, index or pool changes, so nothing rests.
  pub submit_limit-taker :
      (cmd : OrderCommand) (b : OrderBook)
      → 0ℤ ≤ℤ cmd.qty
      → IsBook b
      → rests cmd.tif ≡ false
      → (is_fok cmd.tif && not (check_fok_liquidity (opposite cmd.side) cmd.qty cmd.price_ticks b))
        ≡ false
      → let s = opposite cmd.side in
        (traded : Quantity) × (matched b' : OrderBook) × (submit_limit now_ns cmd b
          ≡ some (exec_result traded 0ℤ, b'))
        × Matched s cmd.price_ticks cmd.qty b traded matched
        × IsStopped s (incoming cmd cmd.price_ticks) (cmd.qty -ℤ traded) matched
        × Announced matched b'
  unfolding submit_limit submit_limit_side
  submit_limit-taker cmd b hq v rest pass =
      let s = opposite cmd.side in
      let (t, m, e, ok, stop) = match_if_crossing-Matched cmd.side cmd b hq v in
      let (l, r) = Matched-IsMarked s cmd.price_ticks cmd.qty t b m v ok in
      let (b', f, a) = reply-Answer (exec_result t 0ℤ) m l r in
      (t, m, b', rw (pass, e) (settle-taker cmd.side cmd t m ok.at_most rest ∙ f), ok, stop, a)

  -- A fill-or-kill order that fails the liquidity check.
  pub killed_lem :
      (cmd : OrderCommand) (b : OrderBook)
      → IsBook b
      → is_fok cmd.tif ≡ true
      → check_fok_liquidity (opposite cmd.side) cmd.qty cmd.price_ticks b ≡ false
      → (b' : OrderBook) × (submit_limit now_ns cmd b ≡ some (exec_result 0ℤ 0ℤ, b'))
        × Announced b b'
  unfolding submit_limit submit_limit_side
  killed_lem cmd b v fok fails =
      let (b', e, a) = reply-Answer (exec_result 0ℤ 0ℤ) b v.bids.marked v.asks.marked in
      (b', rw (fok, fails) e, a)
