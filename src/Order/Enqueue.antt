-- ===== src/Order/Enqueue.antt =====
-- `enqueue` of include/hyperliquid/order.h on a well-formed queue.
use mathlib.Core.List.{append-nil}
use hyperliquid_matching_eng.Base.{
  ◌≡◌, some, ◌∙◌, ◌≢◌, refl, false, arith, sym, List, [], ◌∷◌, ◌++◌,
}
use hyperliquid_matching_eng.Base.Int.{
  ℤ, ◌+ℤ◌, ◌-ℤ◌, -ℤ_parts, ◌<ℤ◌, 0ℤ, +ℤ_parts, eq_of_parts, Same-of_eq, sum_ℤ,
}
use hyperliquid_matching_eng.Order.{
  Addr, Order, LevelFifo, is_empty, is_nil, enqueue, erase, deref, remove, open_qty,
}
use hyperliquid_matching_eng.Order.Laws.{Apart, Distinct, AllOpen, IsLevel, remove-append}

Apart-append :
    (a : Addr) (os : List Order) (o : Order) → Apart a os → o.addr ≢ a → Apart a (os ++ o ∷ [])
Apart-append a [] o h ne = (ne, tt)
Apart-append a (x ∷ os) o h ne = (h.0, Apart-append a os o h.1 ne)

pub Distinct-append :
    (os : List Order) (o : Order) → Distinct os → Apart o.addr os → Distinct (os ++ o ∷ [])
Distinct-append [] o d h = (tt, tt)
Distinct-append (x ∷ os) o d h =
    (Apart-append x.addr os o d.0 (λ e. h.0 (sym e)), Distinct-append os o d.1 h.1)

AllOpen-append : (os : List Order) (o : Order) → AllOpen os → 0ℤ <ℤ o.qty → AllOpen (os ++ o ∷ [])
AllOpen-append [] o d h = (h, tt)
AllOpen-append (x ∷ os) o d h = (d.0, AllOpen-append os o d.1 h)

open_qty-append : (os : List Order) (o : Order) → open_qty (os ++ o ∷ []) ≡ open_qty os +ℤ o.qty
unfolding sum_ℤ
open_qty-append [] o = eq_of_parts _ _ (omega (arith, +ℤ_parts))
open_qty-append (x ∷ os) o =
    eq_of_parts _ _ (omega (arith, +ℤ_parts, Same-of_eq _ _ (open_qty-append os o)))

pub enqueue-IsLevel :
    (l : LevelFifo) (o : Order)
    → IsLevel l
    → Apart o.addr l.orders
    → 0ℤ <ℤ o.qty
    → IsLevel (enqueue l o)
unfolding enqueue
enqueue-IsLevel l o v apart left = record {
  distinct = Distinct-append l.orders o v.distinct apart;
  all_open = AllOpen-append l.orders o v.all_open left;
  total = rw (v.total, open_qty-append l.orders o) refl;
}

is_nil-append : (os : List Order) (o : Order) → is_nil (os ++ o ∷ []) ≡ false
is_nil-append [] o = refl
is_nil-append (x ∷ os) o = refl

pub enqueue-not_empty : (l : LevelFifo) (o : Order) → is_empty (enqueue l o) ≡ false
unfolding enqueue
enqueue-not_empty l o = is_nil-append l.orders o

remove-last : (os : List Order) (o : Order) → Apart o.addr os → remove o.addr (os ++ o ∷ []) ≡ os
remove-last os o h = remove-append o os [] h ∙ append-nil os

deref-last : (os : List Order) (o : Order) → Apart o.addr os → deref o.addr (os ++ o ∷ []) ≡ some o
unfolding deref
deref-last [] o h = ground arith
deref-last (x ∷ os) o h = ground (arith, deref-last os o h.1)

-- The order that has just joined a queue is found at its node.
pub deref-enqueue :
    (l : LevelFifo) (o : Order) → Apart o.addr l.orders → deref o.addr (enqueue l o).orders ≡ some o
unfolding enqueue
deref-enqueue l o h = deref-last l.orders o h

add_sub : (a b : ℤ) → a +ℤ b -ℤ b ≡ a
add_sub a b = eq_of_parts _ _ (omega (arith, +ℤ_parts, -ℤ_parts))

-- Erasing the order that has just joined a queue gives the queue back.
pub erase-enqueue : (l : LevelFifo) (o : Order) → Apart o.addr l.orders → erase (enqueue l o) o ≡ l
unfolding erase enqueue
erase-enqueue l o h = rw (remove-last l.orders o h, add_sub l.total_qty o.qty) refl
