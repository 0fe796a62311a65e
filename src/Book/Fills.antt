-- ===== src/Book/Fills.antt =====
-- `fill_level`, the loop over the makers of a level in include/hyperliquid/order_book.h, against the
-- reference `consume`.
use mathlib.Core.List.{append_assoc, append-nil}
use hyperliquid_matching_eng.Base.{
  ◌≡◌, refl, true, false, List, [], ◌∷◌, ◌++◌, some, arith, Bool-cases, inl, inr, ◌∙◌, sym, subst,
}
use hyperliquid_matching_eng.Base.Int.{
  ℤ, ◌-ℤ◌, ◌≤ℤ◌, ◌<ℤ◌, ltb_ℤ, min_ℤ, 0ℤ, +ℤ_parts, eq_of_parts, Same-of_eq, lt-of_ltb_ℤ,
  le-of_ltb_ℤ,
}
use hyperliquid_matching_eng.Order.{Order}
use hyperliquid_matching_eng.Order.Copies.{IsMoved-refl, IsMoved-trans}
use hyperliquid_matching_eng.Order.Laws.{Distinct}
use hyperliquid_matching_eng.FlatMap.Counting.{IsTable}
use hyperliquid_matching_eng.Book.Matching.{Taker, Fill, skips, trade_with, fill_level}
use hyperliquid_matching_eng.Book.Consume.{
  Consumed, consume, keep_rest, report, stopped, passed_over, traded_with, consume-stopped,
  consume-passed_over, consume-traded_with,
}
use hyperliquid_matching_eng.Book.Trading.{
  nodes_of, IsFilled, Distinct-keep_rest, trade_with-IsFilled,
}

-- The result of the loop, told by the reference.
abbrev pub Fills : Taker → List Order → List Order → Fill → Type 0
Fills t kept ms f =
    (g : Fill) × (fill_level t ms f ≡ some g) × IsFilled f kept (consume t f.qty ms) g

stopped-IsFilled :
    (kept ms : List Order) (f : Fill)
    → f.level.orders ≡ kept ++ ms
    → IsTable f.id_index
    → IsFilled f kept (stopped f.qty ms) f
stopped-IsFilled kept ms f e w = record {
  orders = e;
  total = eq_of_parts _ _ (omega (arith, +ℤ_parts));
  events = sym (append-nil f.events);
  qty = refl;
  filled = eq_of_parts _ _ (omega (arith, +ℤ_parts));
  table = w;
  nodes = IsMoved-refl f.order_pool (nodes_of f.level);
}

passed_over-IsFilled :
    (kept : List Order) (o : Order) (f g : Fill) (r : Consumed)
    → IsFilled f (kept ++ o ∷ []) r g
    → IsFilled f kept (passed_over o r) g
passed_over-IsFilled kept o f g r v = record {
  orders = v.orders ∙ append_assoc kept (o ∷ []) r.left;
  total = v.total;
  events = v.events;
  qty = v.qty;
  filled = v.filled;
  table = v.table;
  nodes = v.nodes;
}

-- What is behind the loop after a trade.
abbrev behind : List Order → Order → ℤ → List Order
behind kept o m = kept ++ keep_rest o m []

behind-append :
    (kept : List Order) (o : Order) (m : ℤ) (xs : List Order)
    → behind kept o m ++ xs ≡ kept ++ keep_rest o m xs
behind-append kept o m xs = append_assoc kept (keep_rest o m []) xs ∙ ground arith

traded_with-IsFilled :
    (t : Taker) (kept ms : List Order) (o : Order) (m : ℤ) (f h g : Fill) (r : Consumed)
    → IsFilled f kept
        (record { left = keep_rest o m ms; trades = report t o m; rest = f.qty -ℤ m; traded = m })
        h
    → IsFilled h (behind kept o m) r g
    → IsFilled f kept (traded_with t o m r) g
traded_with-IsFilled t kept ms o m f h g r u v = record {
  orders = v.orders ∙ behind-append kept o m r.left;
  total = eq_of_parts _ _ (omega (arith, +ℤ_parts, Same-of_eq _ _ u.total, Same-of_eq _ _ v.total));
  events = v.events ∙ rw (u.events) (append_assoc f.events (report t o m) r.trades);
  qty = v.qty;
  filled =
      eq_of_parts _ _ (omega (arith, +ℤ_parts, Same-of_eq _ _ u.filled, Same-of_eq _ _ v.filled));
  table = v.table;
  nodes =
      IsMoved-trans f.order_pool h.order_pool g.order_pool (nodes_of f.level) (nodes_of h.level)
        (nodes_of g.level) u.nodes v.nodes;
}

fill_level-stops :
    (t : Taker) (o : Order) (ms : List Order) (f : Fill)
    → f.qty ≤ℤ 0ℤ
    → fill_level t (o ∷ ms) f ≡ some f
unfolding fill_level
fill_level-stops t o ms f h = ground arith

fill_level-passes :
    (t : Taker) (o : Order) (ms : List Order) (f : Fill)
    → 0ℤ <ℤ f.qty
    → skips t o ≡ true
    → fill_level t (o ∷ ms) f ≡ fill_level t ms f
unfolding fill_level
fill_level-passes t o ms f h s = ground arith

fill_level-trades :
    (t : Taker) (o : Order) (ms : List Order) (f g : Fill)
    → 0ℤ <ℤ f.qty
    → skips t o ≡ false
    → trade_with t o f ≡ some g
    → fill_level t (o ∷ ms) f ≡ fill_level t ms g
unfolding fill_level
fill_level-trades t o ms f g h s e = ground arith

-- From any maker on, with `kept` behind it: the loop ends and agrees with the reference.
pub fill_level-consume :
    (t : Taker) (kept ms : List Order) (f : Fill)
    → f.level.orders ≡ kept ++ ms
    → Distinct (kept ++ ms)
    → IsTable f.id_index
    → Fills t kept ms f
fill_level-consume t kept [] f e d w =
    (f, unfold fill_level in refl, unfold consume in stopped-IsFilled kept [] f e w)
fill_level-consume t kept (o ∷ ms) f e d w = elim (Bool-cases (ltb_ℤ 0ℤ f.qty)) [
  | inl pos ↦
      let h = lt-of_ltb_ℤ 0ℤ f.qty pos in
      elim (Bool-cases (skips t o)) [
        | inl s ↦
            let one = append_assoc kept (o ∷ []) ms in
            let (g, eq, v) =
              fill_level-consume t (kept ++ o ∷ []) ms f (e ∙ sym one) (subst Distinct (sym one) d)
                w in
            (
              g,
              fill_level-passes t o ms f h s ∙ eq,
              subst (λ r. IsFilled f kept r g) (sym (consume-passed_over t f.qty o ms h s))
                  (passed_over-IsFilled kept o f g (consume t f.qty ms) v),
            )
        | inr s ↦
            let m = min_ℤ f.qty o.qty in
            let one = behind-append kept o m ms in
            let (k, eq, u) = trade_with-IsFilled t o kept ms f e d w in
            let (g, eq', v) =
              fill_level-consume t (behind kept o m) ms k (u.orders ∙ sym one)
                (subst Distinct (sym one) (Distinct-keep_rest kept ms o m d)) u.table in
            (
              g,
              fill_level-trades t o ms f k h s eq ∙ eq',
              subst (λ r. IsFilled f kept r g) (sym (consume-traded_with t f.qty o ms h s))
                  (traded_with-IsFilled t kept ms o m f k g (consume t (f.qty -ℤ m) ms) u
                    (subst (λ q. IsFilled k (behind kept o m) (consume t q ms) g) u.qty v)),
            )
      ]
  | inr neg ↦
      let h = le-of_ltb_ℤ 0ℤ f.qty neg in
      (
        f,
        fill_level-stops t o ms f h,
        subst (λ r. IsFilled f kept r f) (sym (consume-stopped t f.qty (o ∷ ms) h))
            (stopped-IsFilled kept (o ∷ ms) f e w),
      )
]

-- From a level whose nodes have distinct addresses, and a well-formed index, the loop over all
-- the level's makers always ends. The orders that it leaves, the events that it adds, the taker's
-- remaining quantity, its filled total and the level's total are those of the reference
-- `consume`, which works on the list of orders alone; the nodes that its trades have freed are in
-- the pool.
pub fill_level_refines :
    (t : Taker) (f : Fill)
    → Distinct f.level.orders
    → IsTable f.id_index
    → Fills t [] f.level.orders f
fill_level_refines t f d w = fill_level-consume t [] f.level.orders f refl d w
