-- ===== src/Book/Erasing.antt =====
-- Taking one order out of its level, and what the array of levels is then
-- (include/hyperliquid/order.h, include/hyperliquid/order_book.h).
use hyperliquid_matching_eng.Base.{
  ℕ, ◌-◌, ◌≡◌, ◌≢◌, true, arith, some, inl, inr, Bool-cases, subst, sym, ◌∙◌, ap, List, [], ◌∷◌,
  ◌++◌, get_elem?, get_elem?-set_ne,
}
use hyperliquid_matching_eng.Base.Int.{◌+ℤ◌, +ℤ_parts, -ℤ_parts, eq_of_parts, Same-of_eq, sum_ℤ}
use hyperliquid_matching_eng.Types.{Tick}
use hyperliquid_matching_eng.Order.{Addr, Order, LevelFifo, erase, deref, remove, open_qty}
use hyperliquid_matching_eng.Order.Laws.{
  Apart, AllOpen, IsLevel, remove-append, deref-split, Distinct-without,
}
use hyperliquid_matching_eng.PriceLevels.{
  PriceLevels, get_level, put_level, has_level, idx, is_valid_price,
}
use hyperliquid_matching_eng.Book.Sides.{valid-bounds}
use hyperliquid_matching_eng.Book.Filled.{filled}

AllOpen-without : (xs ys : List Order) (o : Order) → AllOpen (xs ++ o ∷ ys) → AllOpen (xs ++ ys)
AllOpen-without [] ys o h = h.1
AllOpen-without (x ∷ xs) ys o h = (h.0, AllOpen-without xs ys o h.1)

pub open_qty-without :
    (xs ys : List Order) (o : Order) → open_qty (xs ++ ys) +ℤ o.qty ≡ open_qty (xs ++ o ∷ ys)
unfolding sum_ℤ
open_qty-without [] ys o = eq_of_parts _ _ (omega (arith, +ℤ_parts))
open_qty-without (x ∷ xs) ys o =
    eq_of_parts _ _ (omega (arith, +ℤ_parts, Same-of_eq _ _ (open_qty-without xs ys o)))

-- Erasing an order of a well-formed queue leaves the others in their order, and a well-formed queue.
pub erase-IsLevel :
    (l : LevelFifo) (a : Addr) (o : Order)
    → IsLevel l
    → deref a l.orders ≡ some o
    → IsLevel (erase l o)
unfolding erase
erase-IsLevel l a o v h =
    let (xs, ys, e, f, g) = deref-split a l.orders o h in
    let r : remove o.addr l.orders ≡ xs ++ ys =
      rw e (remove-append o xs ys (subst (λ k. Apart k xs) (sym f) g)) in
    record {
      distinct = rw r (Distinct-without xs ys o (rw e at (v.distinct)));
      all_open = rw r (AllOpen-without xs ys o (rw e at (v.all_open)));
      total = rw r (
          eq_of_parts _ _ (
            omega (
              arith,
              +ℤ_parts,
              -ℤ_parts,
              Same-of_eq _ _ (v.total ∙ ap open_qty e),
              Same-of_eq _ _ (open_qty-without xs ys o),
            )));
    }

-- The index at which a price's level stands.
abbrev pub slot_of : PriceLevels → Tick → ℕ
slot_of p px = px - p.band.min_tick

pub get_level-slot :
    (p : PriceLevels) (px : Tick) (l : LevelFifo)
    → get_level p px ≡ some l
    → (is_valid_price p px ≡ true) × (get_elem? p.levels (slot_of p px) ≡ some l)
unfolding get_level idx
get_level-slot p px l h = elim (Bool-cases (is_valid_price p px)) [
  | inl good ↦ (good, ground arith)
  | inr bad ↦ absurd (ground arith)
]

pub put_level-filled :
    (p : PriceLevels) (px : Tick) (l : LevelFifo)
    → is_valid_price p px ≡ true
    → put_level p px l ≡ some (filled p (slot_of p px) l)
unfolding put_level idx
put_level-filled p px l h = ground arith

-- A level at another price is not touched.
pub has_level-filled_ne :
    (p : PriceLevels) (px qx : Tick) (l : LevelFifo)
    → is_valid_price p px ≡ true
    → px ≢ qx
    → has_level (filled p (slot_of p px) l) qx ≡ has_level p qx
unfolding has_level get_level idx
has_level-filled_ne p px qx l good ne = elim (Bool-cases (is_valid_price p qx)) [
  | inl ok ↦
      let v = valid-bounds p px good in
      let w = valid-bounds p qx ok in
      ground
        (arith, get_elem?-set_ne p.levels {i = slot_of p px} {j = slot_of p qx} l (omega arith))
  | inr bad ↦ ground arith
]
