-- ===== src/Book/Consume/Priority.antt =====
-- In which order a taker trades with the orders of one price level, and what it reports.
use mathlib.Core.List.{append_assoc}
use hyperliquid_matching_eng.Base.{
  ◌≡◌, refl, true, List, [], ◌∷◌, ◌++◌, arith, Bool-cases, inl, inr, ap, ◌∙◌,
}
use hyperliquid_matching_eng.Base.Int.{
  ℤ, ◌+ℤ◌, ◌-ℤ◌, ◌<ℤ◌, leb_ℤ, ltb_ℤ, min_ℤ, 0ℤ, sum_ℤ, +ℤ_parts, -ℤ_parts, eq_of_parts, min_parts,
  sum_ℤ-append, Same-of_eq, lt-of_leb_ℤ, lt-of_ltb_ℤ, le-of_ltb_ℤ,
}
use hyperliquid_matching_eng.Types.{Quantity}
use hyperliquid_matching_eng.Command.{AnyEvent, trade, book_update}
use hyperliquid_matching_eng.Order.{Order}
use hyperliquid_matching_eng.Book.Matching.{Taker, skips}
use hyperliquid_matching_eng.Book.Consume.{
  Consumed, consume, consume_cases, eligible, keep_rest, report, consume-stopped,
  consume-passed_over, consume-traded_with,
}

-- What a second run adds to a first.
abbrev pub joined : Consumed → Consumed → Consumed
joined a b = record {
  left = a.left ++ b.left;
  trades = a.trades ++ b.trades;
  rest = b.rest;
  traded = a.traded +ℤ b.traded;
}

zero_add : (a : ℤ) → 0ℤ +ℤ a ≡ a
zero_add a = eq_of_parts _ _ (omega (arith, +ℤ_parts))

add_assoc_ℤ : (a b c : ℤ) → a +ℤ b +ℤ c ≡ a +ℤ (b +ℤ c)
add_assoc_ℤ a b c = eq_of_parts _ _ (omega (arith, +ℤ_parts))

keep_rest-append :
    (o : Order) (m : ℤ) (xs ys : List Order) → keep_rest o m (xs ++ ys) ≡ keep_rest o m xs ++ ys
keep_rest-append o m xs ys = ground arith

-- The reference for one level keeps time priority: a taker meets the orders in front as if there
-- were none behind, and those behind with what is left of its quantity.
pub consume-append :
    (t : Taker) (q : Quantity) (xs ys : List Order)
    → consume t q (xs ++ ys) ≡ joined (consume t q xs) (consume t (consume t q xs).rest ys)
consume-append t q [] ys = unfold consume in ground (arith, zero_add (consume t q ys).traded)
consume-append t q (o ∷ xs) ys = elim (Bool-cases (ltb_ℤ 0ℤ q)) [
  | inl pos ↦
      let h = lt-of_ltb_ℤ 0ℤ q pos in
      elim (Bool-cases (skips t o)) [
        | inl s ↦
            let e = consume-passed_over t q o (xs ++ ys) h s in
            let f = consume-passed_over t q o xs h s in rw (e, f, consume-append t q xs ys)
        | inr s ↦
            let m = min_ℤ q o.qty in
            let e = consume-traded_with t q o (xs ++ ys) h s in
            let f = consume-traded_with t q o xs h s in
            let a = consume t (q -ℤ m) xs in
            rw (e, f, consume-append t (q -ℤ m) xs ys)
              (ground (
                arith,
                keep_rest-append o m a.left (consume t a.rest ys).left,
                append_assoc (report t o m) a.trades (consume t a.rest ys).trades,
                add_assoc_ℤ m a.traded (consume t a.rest ys).traded,
              ))
      ]
  | inr neg ↦
      let h = le-of_ltb_ℤ 0ℤ q neg in
      rw
        (
          consume-stopped t q (o ∷ xs ++ ys) h,
          consume-stopped t q (o ∷ xs) h,
          consume-stopped t q ys h,
        )
        (ground (arith, zero_add 0ℤ))
]

-- The reference for one level: while the taker has quantity left, every order that is left is one
-- that it skips for self-trade prevention.
pub eligible-consume :
    (t : Taker) (q : Quantity) (os : List Order)
    → 0ℤ <ℤ (consume t q os).rest
    → eligible t (consume t q os).left ≡ []
unfolding consume eligible
eligible-consume t q [] h = refl
eligible-consume t q (o ∷ os) h0 =
    consume_cases (λ r. 0ℤ <ℤ r.rest → eligible t r.left ≡ []) t q o os
      (λ z h. absurd (omega arith)) (λ z s h. rw s (eligible-consume t q os h))
      (λ z s h.
        let m = min_ℤ q o.qty in
        elim (Bool-cases (leb_ℤ o.qty m)) [
          | inl all ↦ rw all (eligible-consume t (q -ℤ m) os h)
          | inr part ↦
              let st =
                consume-stopped t (q -ℤ m) os
                  (omega (arith, -ℤ_parts, min_parts q o.qty, lt-of_leb_ℤ o.qty m part)) in
              absurd (
                omega (
                  arith,
                  -ℤ_parts,
                  min_parts q o.qty,
                  lt-of_leb_ℤ o.qty m part,
                  Same-of_eq _ _ (ap (λ (c : Consumed). c.rest) st),
                ))
        ])
      h0

-- The quantity of a trade.
abbrev pub trade_qty : AnyEvent → ℤ
trade_qty (trade e) = e.qty
trade_qty (book_update u) = 0ℤ

sum-report :
    (t : Taker) (o : Order) (m : ℤ) → t.on_trade ≡ true → sum_ℤ trade_qty (report t o m) ≡ m
unfolding sum_ℤ
sum-report t o m on = rw on (eq_of_parts _ _ (omega (arith, +ℤ_parts)))

-- Where trades are reported, the reported quantities add up to what is traded.
pub sum-trades-consume :
    (t : Taker) (q : Quantity) (os : List Order)
    → t.on_trade ≡ true
    → sum_ℤ trade_qty (consume t q os).trades ≡ (consume t q os).traded
unfolding consume sum_ℤ
sum-trades-consume t q [] on = refl
sum-trades-consume t q (o ∷ os) on =
    consume_cases (λ r. sum_ℤ trade_qty r.trades ≡ r.traded) t q o os (λ _. refl)
      (λ _ _. sum-trades-consume t q os on)
      (λ _ _.
        let r = consume t (q -ℤ min_ℤ q o.qty) os in
        sum_ℤ-append trade_qty (report t o (min_ℤ q o.qty)) r.trades
        ∙ eq_of_parts _ _ (
            omega (
              arith,
              +ℤ_parts,
              Same-of_eq _ _ (sum-report t o (min_ℤ q o.qty) on),
              Same-of_eq _ _ (sum-trades-consume t (q -ℤ min_ℤ q o.qty) os on),
            )))
