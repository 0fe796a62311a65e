-- ===== src/Book/Consume/Amounts.antt =====
-- How much a taker trades at one price level, and with whom.
use hyperliquid_matching_eng.Base.{ℕ, ◌≡◌, List, [], ◌∷◌, arith, Bool-cases, inl, inr}
use hyperliquid_matching_eng.Base.Int.{
  ℤ, ◌+ℤ◌, ◌-ℤ◌, ◌≤ℤ◌, leb_ℤ, min_ℤ, 0ℤ, sum_ℤ, +ℤ_parts, -ℤ_parts, eq_of_parts, min_parts,
  Same-of_eq, lt-of_leb_ℤ,
}
use hyperliquid_matching_eng.Types.{Quantity}
use hyperliquid_matching_eng.Order.{Order, open_qty}
use hyperliquid_matching_eng.Order.Laws.{Apart, AllOpen, Distinct}
use hyperliquid_matching_eng.Book.Matching.{Taker, skips}
use hyperliquid_matching_eng.Book.Consume.{consume, consume_cases, eligible, keep_rest}

open_keep_rest :
    (o : Order) (m : ℤ) (os : List Order)
    → m ≤ℤ o.qty
    → open_qty (keep_rest o m os) +ℤ m ≡ o.qty +ℤ open_qty os
unfolding sum_ℤ
open_keep_rest o m os h = elim (Bool-cases (leb_ℤ o.qty m)) [
  | inl all ↦
      rw all
        (eq_of_parts _ _ (ground (arith, +ℤ_parts (open_qty os) m, +ℤ_parts o.qty (open_qty os))))
  | inr part ↦ rw part (eq_of_parts _ _ (omega (arith, +ℤ_parts, -ℤ_parts)))
]

-- The open quantity of the level falls by what is traded.
pub open_qty-consume :
    (t : Taker) (q : Quantity) (os : List Order)
    → open_qty (consume t q os).left +ℤ (consume t q os).traded ≡ open_qty os
unfolding consume sum_ℤ
open_qty-consume t q [] = eq_of_parts _ _ (omega (arith, +ℤ_parts))
open_qty-consume t q (o ∷ os) =
    consume_cases (λ r. open_qty r.left +ℤ r.traded ≡ open_qty (o ∷ os)) t q o os
      (λ h. eq_of_parts _ _ (omega (arith, +ℤ_parts)))
      (λ h s.
        let ih = open_qty-consume t q os in
        eq_of_parts _ _ (omega (arith, +ℤ_parts, Same-of_eq _ _ ih)))
      (λ h s.
        let m = min_ℤ q o.qty in
        let ih = open_qty-consume t (q -ℤ m) os in
        let k = open_keep_rest o m (consume t (q -ℤ m) os).left (min_parts q o.qty).1 in
        eq_of_parts _ _ (omega (arith, +ℤ_parts, Same-of_eq _ _ ih, Same-of_eq _ _ k)))

keep_rest-AllOpen : (o : Order) (m : ℤ) (os : List Order) → AllOpen os → AllOpen (keep_rest o m os)
keep_rest-AllOpen o m os h = elim (Bool-cases (leb_ℤ o.qty m)) [
  | inl all ↦ rw all h
  | inr part ↦ rw part (omega (arith, -ℤ_parts, lt-of_leb_ℤ o.qty m part), h)
]

pub consume-AllOpen :
    (t : Taker) (q : Quantity) (os : List Order) → AllOpen os → AllOpen (consume t q os).left
unfolding consume
consume-AllOpen t q [] h = tt
consume-AllOpen t q (o ∷ os) h =
    consume_cases (λ r. AllOpen r.left) t q o os (λ _. h) (λ _ _. (h.0, consume-AllOpen t q os h.1))
      (λ _ _. keep_rest-AllOpen o _ _ (consume-AllOpen t (q -ℤ min_ℤ q o.qty) os h.1))

pub consume-Apart :
    (a : ℕ) (t : Taker) (q : Quantity) (os : List Order)
    → Apart a os
    → Apart a (consume t q os).left
unfolding consume
consume-Apart a t q [] h = tt
consume-Apart a t q (o ∷ os) h =
    consume_cases (λ r. Apart a r.left) t q o os (λ _. h) (λ _ _. (h.0, consume-Apart a t q os h.1))
      (λ _ _.
        let ih = consume-Apart a t (q -ℤ min_ℤ q o.qty) os h.1 in
        elim (Bool-cases (leb_ℤ o.qty (min_ℤ q o.qty))) [
          | inl all ↦ rw all ih
          | inr part ↦ rw part (h.0, ih)
        ])

pub consume-Distinct :
    (t : Taker) (q : Quantity) (os : List Order) → Distinct os → Distinct (consume t q os).left
unfolding consume
consume-Distinct t q [] h = tt
consume-Distinct t q (o ∷ os) h =
    consume_cases (λ r. Distinct r.left) t q o os (λ _. h)
      (λ _ _. (consume-Apart o.addr t q os h.0, consume-Distinct t q os h.1))
      (λ _ _.
        let q' = q -ℤ min_ℤ q o.qty in
        let ih = consume-Distinct t q' os h.1 in
        elim (Bool-cases (leb_ℤ o.qty (min_ℤ q o.qty))) [
          | inl all ↦ rw all ih
          | inr part ↦ rw part (consume-Apart o.addr t q' os h.0, ih)
        ])

pub eligible-open : (t : Taker) (os : List Order) → AllOpen os → 0ℤ ≤ℤ open_qty (eligible t os)
unfolding eligible sum_ℤ
eligible-open t [] h = omega arith
eligible-open t (o ∷ os) h = elim (Bool-cases (skips t o)) [
  | inl s ↦ rw s (eligible-open t os h.1)
  | inr s ↦ rw s (omega (arith, +ℤ_parts, eligible-open t os h.1))
]

-- The reference for one level: where every order has something open, a taker of a quantity that
-- is not negative trades the lesser of its quantity and the open quantity of the orders that it
-- does not skip for self-trade prevention.
pub consume-traded :
    (t : Taker) (q : Quantity) (os : List Order)
    → 0ℤ ≤ℤ q
    → AllOpen os
    → (consume t q os).traded ≡ min_ℤ q (open_qty (eligible t os))
unfolding consume eligible sum_ℤ
consume-traded t q [] hq h = eq_of_parts _ _ (omega (arith, min_parts q 0ℤ))
consume-traded t q (o ∷ os) hq h =
    consume_cases (λ r. r.traded ≡ min_ℤ q (open_qty (eligible t (o ∷ os)))) t q o os
      (λ z.
        let e = eligible-open t (o ∷ os) h in
        eq_of_parts _ _ (omega (arith, min_parts q (open_qty (eligible t (o ∷ os))))))
      (λ z s. rw s (consume-traded t q os hq h.1))
      (λ z s.
        let m = min_ℤ q o.qty in
        let rest = open_qty (eligible t os) in
        let ih = consume-traded t (q -ℤ m) os (omega (arith, -ℤ_parts, min_parts q o.qty)) h.1 in
        rw s (
          eq_of_parts _ _ (
            omega (
              arith,
              +ℤ_parts,
              -ℤ_parts,
              Same-of_eq _ _ ih,
              min_parts q o.qty,
              min_parts (q -ℤ m) rest,
              min_parts q (o.qty +ℤ rest),
              eligible-open t os h.1,
            ))))
