-- ===== src/Book/Consume.antt =====
-- What a taker does to one price level, as a function of the level's orders alone: the reference
-- that the loop over makers in include/hyperliquid/order_book.h is held to.
pub mod Amounts
pub mod Priority
use hyperliquid_matching_eng.Base.{
  ℕ, ◌≡◌, refl, Bool, true, false, List, [], ◌∷◌, ◌++◌, arith, if◌then◌else◌, ◌==◌, ap, sym, subst,
  Bool-cases, inl, inr, ◌⊎◌, ltb,
}
use hyperliquid_matching_eng.Base.Int.{
  ℤ, ◌+ℤ◌, ◌-ℤ◌, ◌≤ℤ◌, ◌<ℤ◌, ltb_ℤ, leb_ℤ, min_ℤ, 0ℤ, sum_ℤ, +ℤ_parts, -ℤ_parts, eq_of_parts,
  pos_part, neg_part, lt-of_ltb_ℤ, le-of_ltb_ℤ,
}
use hyperliquid_matching_eng.Types.{Quantity}
use hyperliquid_matching_eng.Command.{AnyEvent, trade}
use hyperliquid_matching_eng.Order.{Order, open_qty}
use hyperliquid_matching_eng.Order.Laws.{Apart, AllOpen, Distinct}
use hyperliquid_matching_eng.Book.Matching.{Taker, skips, trade_of}

pub record Consumed : Type 0 where
  pub left : List Order
  pub trades : List AnyEvent
  pub rest : Quantity
  pub traded : Quantity

abbrev pub report : Taker → Order → Quantity → List AnyEvent
report t o m = if t.on_trade then trade (trade_of t o m) ∷ [] else []

-- A maker that has traded `m`: gone if that was all of it.
abbrev pub keep_rest : Order → Quantity → List Order → List Order
keep_rest o m os = if leb_ℤ o.qty m then os else record o { qty = o.qty -ℤ m } ∷ os

unfoldable pub consume : Taker → Quantity → List Order → Consumed
consume t q [] = record { left = []; trades = []; rest = q; traded = 0ℤ }
consume t q (o ∷ os) = elim (ltb_ℤ 0ℤ q) [
  | true ↦ elim (skips t o) [
    | true ↦ let r = consume t q os in record r { left = o ∷ r.left }
    | false ↦
        let m = min_ℤ q o.qty in
        let r = consume t (q -ℤ m) os in
        record {
          left = keep_rest o m r.left;
          trades = report t o m ++ r.trades;
          rest = r.rest;
          traded = m +ℤ r.traded;
        }
  ]
  | false ↦ record { left = o ∷ os; trades = []; rest = q; traded = 0ℤ }
]

-- The orders that the taker may trade with.
unfoldable pub eligible : Taker → List Order → List Order
eligible t [] = []
eligible t (o ∷ os) = if skips t o then eligible t os else o ∷ eligible t os

abbrev pub stopped : Quantity → List Order → Consumed
stopped q os = record { left = os; trades = []; rest = q; traded = 0ℤ }

abbrev pub passed_over : Order → Consumed → Consumed
passed_over o r = record r { left = o ∷ r.left }

abbrev pub traded_with : Taker → Order → Quantity → Consumed → Consumed
traded_with t o m r = record {
  left = keep_rest o m r.left;
  trades = report t o m ++ r.trades;
  rest = r.rest;
  traded = m +ℤ r.traded;
}

pub consume-stopped :
    (t : Taker) (q : Quantity) (os : List Order) → q ≤ℤ 0ℤ → consume t q os ≡ stopped q os
unfolding consume
consume-stopped t q [] h = refl
consume-stopped t q (o ∷ os) h = ground arith

pub consume-passed_over :
    (t : Taker) (q : Quantity) (o : Order) (os : List Order)
    → 0ℤ <ℤ q
    → skips t o ≡ true
    → consume t q (o ∷ os) ≡ passed_over o (consume t q os)
unfolding consume
consume-passed_over t q o os h s = ground arith

pub consume-traded_with :
    (t : Taker) (q : Quantity) (o : Order) (os : List Order)
    → 0ℤ <ℤ q
    → skips t o ≡ false
    → consume t q (o ∷ os) ≡ traded_with t o (min_ℤ q o.qty) (consume t (q -ℤ min_ℤ q o.qty) os)
unfolding consume
consume-traded_with t q o os h s = ground arith

-- The three ways of one step.
pub consume_cases {ℓ} :
    (P : Consumed → Type ℓ) (t : Taker) (q : Quantity) (o : Order) (os : List Order)
    → (q ≤ℤ 0ℤ → P (stopped q (o ∷ os)))
    → (0ℤ <ℤ q → skips t o ≡ true → P (passed_over o (consume t q os)))
    → (0ℤ <ℤ q
        → skips t o ≡ false
        → P (traded_with t o (min_ℤ q o.qty) (consume t (q -ℤ min_ℤ q o.qty) os)))
    → P (consume t q (o ∷ os))
consume_cases P t q o os stop pass deal = elim (Bool-cases (ltb_ℤ 0ℤ q)) [
  | inl pos ↦
      let h = lt-of_ltb_ℤ 0ℤ q pos in
      elim (Bool-cases (skips t o)) [
        | inl s ↦ subst P (sym (consume-passed_over t q o os h s)) (pass h s)
        | inr s ↦ subst P (sym (consume-traded_with t q o os h s)) (deal h s)
      ]
  | inr neg ↦
      let h = le-of_ltb_ℤ 0ℤ q neg in subst P (sym (consume-stopped t q (o ∷ os) h)) (stop h)
]

-- Nothing is lost: what is left to the taker and what it traded make up its quantity.
pub consume-rest-add-traded :
    (t : Taker) (q : Quantity) (os : List Order)
    → (consume t q os).rest +ℤ (consume t q os).traded ≡ q
unfolding consume
consume-rest-add-traded t q [] = eq_of_parts _ _ (omega (arith, +ℤ_parts))
consume-rest-add-traded t q (o ∷ os) =
    consume_cases (λ r. r.rest +ℤ r.traded ≡ q) t q o os
      (λ h. eq_of_parts _ _ (omega (arith, +ℤ_parts))) (λ h s. consume-rest-add-traded t q os)
      (λ h s. eq_of_parts _ _ (
        omega (
          arith,
          +ℤ_parts,
          -ℤ_parts,
          ap pos_part (consume-rest-add-traded t (q -ℤ min_ℤ q o.qty) os),
          ap neg_part (consume-rest-add-traded t (q -ℤ min_ℤ q o.qty) os),
        )))
