-- ===== src/Book/Crossing.antt =====
-- Self-trade prevention leaves a crossing order in the book (include/hyperliquid/order_book.h): the
-- orders of the taker's own user are passed over, and the rest of the taker's order rests.
use hyperliquid_matching_eng.Base.{
  ℕ, ◌≤◌, ◌≡◌, ◌≢◌, refl, true, false, arith, some, List, [], ◌∷◌, inl, inr, subst, sym, ◌∙◌, ap,
  length, some_inj, ◌==◌,
}
use hyperliquid_matching_eng.Base.Int.{
  ◌-ℤ◌, ◌<ℤ◌, ltb_ℤ, 0ℤ, ltb_ℤ-of_lt, eq_of_parts, -ℤ_parts, Same-of_eq,
}
use hyperliquid_matching_eng.Types.{UserId, Quantity, Timestamp, Side, bid, ask, has_stp}
use hyperliquid_matching_eng.Command.{OrderCommand, exec_result}
use hyperliquid_matching_eng.Order.{Order, LevelFifo, is_empty}
use hyperliquid_matching_eng.PriceLevels.{
  PriceLevels, is_valid_price, get_level, has_level, best_level_ptr,
}
use hyperliquid_matching_eng.FlatMap
use hyperliquid_matching_eng.Book.State.{OrderBook, levels_of, best_of, empty_of, opposite}
use hyperliquid_matching_eng.Book.Matching.{
  Incoming, Taker, Fill, done, fill_level, past_limit, match_against_side, match_round, match_loop,
  start_fill, taker_at,
}
use hyperliquid_matching_eng.Book.Submit.{
  submit_limit, submit_limit_side, match_if_crossing, rests, incoming,
}
use hyperliquid_matching_eng.Book.Sides.{IsMarked, has_level-valid, valid-idx}
use hyperliquid_matching_eng.Book.Erasing.{get_level-slot, slot_of}
use hyperliquid_matching_eng.Book.Filled.{filled}
use hyperliquid_matching_eng.Book.Filling.{with_fill}
use hyperliquid_matching_eng.Book.Rounds.{match_level-fills}
use hyperliquid_matching_eng.Book.MatchLoop.{match_loop-done}
use hyperliquid_matching_eng.Book.Takers.{IsBook-side, match_if_crossing-Matched}
use hyperliquid_matching_eng.Book.Resting.{Rested}
use hyperliquid_matching_eng.Book.Limits.{settle-Settled, rests-not_fok, own_side}
use hyperliquid_matching_eng.Book.Sound.{IsSound, Matched-IsSound}

-- Every order belongs to the user.
abbrev pub AllOf : UserId → List Order → Type 0
AllOf user [] = Unit {0}
AllOf user (o ∷ os) = (o.user ≡ user) × AllOf user os

-- Self-trade prevention passes over the taker's own orders.
fill_level-own :
    (t : Taker) (os : List Order) (f : Fill)
    → t.enable_stp ≡ true
    → ltb_ℤ 0ℤ f.qty ≡ true
    → AllOf t.user os
    → fill_level t os f ≡ some f
unfolding fill_level
fill_level-own t [] f on more own = refl
fill_level-own t (o ∷ os) f on more own = ground (arith, fill_level-own t os f on more own.1)

module _ (s : Side) (c : Incoming) (q : Quantity) (b : OrderBook) (l : LevelFifo)
    (marked : IsMarked s (levels_of s b)) (held : best_of s (levels_of s b) ≢ empty_of s)
    (at : get_level (levels_of s b) (best_of s (levels_of s b)) ≡ some l)
    (lim : past_limit s (best_of s (levels_of s b)) c.px_limit ≡ false) (on : c.enable_stp ≡ true)
    (more : 0ℤ <ℤ q) (own : AllOf c.taker_user l.orders) where
  -- The book after the best level has been passed over.
  abbrev passed_over : OrderBook
  passed_over =
      let p = levels_of s b in
      with_fill s (filled p (slot_of p (best_of s p)) l) (start_fill l q 0ℤ b) b

  best-slot :
      (best_level_ptr (levels_of s b) s
        ≡ some (slot_of (levels_of s b) (best_of s (levels_of s b))))
      × (is_empty l ≡ false)
  unfolding has_level
  best-slot = elim marked [
    | inl bare ↦ absurd (held bare.0)
    | inr m ↦ (
      m.1 ∙ valid-idx (levels_of s b) _ (has_level-valid (levels_of s b) _ m.0),
      ground (arith, m.0, at),
    )
  ]

  match_round-own : match_round s c q 0ℤ b ≡ some (done q 0ℤ passed_over)
  unfolding match_round
  match_round-own =
      let p = levels_of s b in
      let (good, here) = get_level-slot p (best_of s p) l at in
      let f = start_fill l q 0ℤ b in
      let fills =
        fill_level-own (taker_at c b (best_of s p)) l.orders f on (ltb_ℤ-of_lt 0ℤ q more) own in
      rw (ltb_ℤ-of_lt 0ℤ q more, match_round, best-slot.0)
        (match_level-fills s c q 0ℤ (slot_of p (best_of s p)) b l here best-slot.1 f lim fills
          ∙ rw best-slot.1 refl)

  match_against_side-own : match_against_side s c q b ≡ some (0ℤ, passed_over)
  unfolding match_against_side
  match_against_side-own =
      let n = length (levels_of s b).levels in
      subst (λ k. match_loop s c k q 0ℤ b ≡ some (0ℤ, passed_over)) (omega arith)
        (match_loop-done s c n q 0ℤ q 0ℤ b passed_over match_round-own)

best-passed_over :
    (s : Side) (l : LevelFifo) (q : Quantity) (i : ℕ) (b : OrderBook)
    → best_of s (levels_of s (with_fill s (filled (levels_of s b) i l) (start_fill l q 0ℤ b) b))
      ≡ best_of s (levels_of s b)
best-passed_over bid l q i b = refl
best-passed_over ask l q i b = refl

match_if_crossing-own :
    (cmd : OrderCommand) (b : OrderBook) (l : LevelFifo)
    → IsSound b
    → has_stp cmd.flags ≡ true
    → 0ℤ <ℤ cmd.qty
    → let t = opposite cmd.side in
      let best = best_of t (levels_of t b) in
      best ≢ empty_of t
      → past_limit t best cmd.price_ticks ≡ false
      → get_level (levels_of t b) best ≡ some l
      → AllOf cmd.user_id l.orders
      → match_if_crossing cmd.side cmd b
        ≡ some (
          0ℤ,
          with_fill t
              (filled (levels_of t b) (slot_of (levels_of t b) best) l)
              (start_fill l cmd.qty 0ℤ b)
              b,
        )
unfolding match_if_crossing
match_if_crossing-own cmd b l v on more held lim at own =
    let t = opposite cmd.side in
    let c = incoming cmd cmd.price_ticks in
    let marked = (IsBook-side t b v.book).marked in
    let e = match_against_side-own t c cmd.qty b l marked held at lim on more own in
    let open_side : (best_of t (levels_of t b) == empty_of t) ≡ false = ground arith in
    rw (open_side, lim) e

-- The best price of one side is at or past the best price of the other.
abbrev pub IsCrossed : OrderBook → Type 0
IsCrossed b = b.asks.best_ask ≤ b.bids.best_bid

Rested-IsCrossed :
    (s : Side) (cmd : OrderCommand) (q : Quantity) (b b' : OrderBook)
    → past_limit (opposite s) (best_of (opposite s) (levels_of (opposite s) b)) cmd.price_ticks
      ≡ false
    → Rested s cmd q b b'
    → IsCrossed b'
Rested-IsCrossed bid cmd q b b' lim r =
    let e : b'.asks.best_ask ≡ b.asks.best_ask = ap (λ (p : PriceLevels). p.best_ask) r.other in
    ground (arith, r.best)
Rested-IsCrossed ask cmd q b b' lim r =
    let e : b'.bids.best_bid ≡ b.bids.best_bid = ap (λ (p : PriceLevels). p.best_bid) r.other in
    ground (arith, r.best)

-- On a sound book, a limit order that may rest, with self-trade prevention, a positive quantity
-- and an identifier that is not the empty key, whose price is in the band and reaches the best
-- level of the other side, where all the orders are of its own user, trades nothing and rests
-- with its whole quantity. Afterwards the book is sound, and its best bid is at or above its best
-- ask.
pub submit_limit-crosses :
    (now_ns : ℕ → Timestamp) (cmd : OrderCommand) (b : OrderBook) (l : LevelFifo)
    → IsSound b
    → rests cmd.tif ≡ true
    → has_stp cmd.flags ≡ true
    → is_valid_price (levels_of cmd.side b) cmd.price_ticks ≡ true
    → cmd.order_id ≢ FlatMap.empty_key
    → 0ℤ <ℤ cmd.qty
    → let t = opposite cmd.side in
      let best = best_of t (levels_of t b) in
      best ≢ empty_of t
      → past_limit t best cmd.price_ticks ≡ false
      → get_level (levels_of t b) best ≡ some l
      → AllOf cmd.user_id l.orders
      → (b' : OrderBook) × (submit_limit now_ns cmd b ≡ some (exec_result 0ℤ cmd.qty, b'))
        × IsSound b'
        × IsCrossed b'
unfolding submit_limit submit_limit_side
submit_limit-crosses now_ns cmd b l v rest on good id more held lim at own =
    let s = opposite cmd.side in
    let (t, m, e, ok, stop) =
      match_if_crossing-Matched now_ns cmd.side cmd b (omega arith) v.book in
    let pair = some_inj (sym e ∙ match_if_crossing-own cmd b l v on more held lim at own) in
    let none_traded : t ≡ 0ℤ = ap (λ (x : Quantity × OrderBook). x.0) pair in
    let same : best_of s (levels_of s m) ≡ best_of s (levels_of s b) =
      ap (λ (x : Quantity × OrderBook). best_of s (levels_of s (x.1))) pair
      ∙ best-passed_over s l cmd.qty (slot_of (levels_of s b) (best_of s (levels_of s b))) b in
    let all : cmd.qty -ℤ t ≡ cmd.qty =
      eq_of_parts _ _ (omega (arith, -ℤ_parts, Same-of_eq _ _ none_traded)) in
    let sound = Matched-IsSound s cmd.price_ticks cmd.qty t b m v ok in
    let valid : is_valid_price (levels_of cmd.side m) cmd.price_ticks ≡ true =
      rw (own_side cmd.side b m ok.other) good in
    let (r, b', f, settled, a, w) = settle-Settled now_ns cmd t m sound rest valid id in
    let crossed : IsCrossed r = elim settled [
      | inl (used, unchanged) ↦ absurd (omega (arith, Same-of_eq _ _ all))
      | inr (left, rested) ↦ Rested-IsCrossed cmd.side cmd (cmd.qty -ℤ t) m r (rw same lim) rested
    ] in
    (
      b',
      rw (rests-not_fok cmd.tif rest, e) (f ∙ rw (all, none_traded) refl),
      w,
      rw (a.bids, a.asks) crossed,
    )
