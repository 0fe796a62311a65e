-- ===== src/Order/Resizing.antt =====
-- `reduce_qty` of include/hyperliquid/order.h on an order of a well-formed queue.
use hyperliquid_matching_eng.Base.{◌≡◌, refl, false, arith, List, [], ◌∷◌, ◌++◌}
use hyperliquid_matching_eng.Base.Int.{ℤ, ◌<ℤ◌, 0ℤ}
use hyperliquid_matching_eng.Order.{Addr, Order, is_nil}
use hyperliquid_matching_eng.Order.Laws.{Apart, Distinct, AllOpen}
use hyperliquid_matching_eng.Order.Copies.{copies, copies-without}

abbrev pub with_qty : Order → ℤ → Order
with_qty o q = record o { qty = q }

Apart-with_qty :
    (a : Addr) (xs ys : List Order) (o : Order) (q : ℤ)
    → Apart a (xs ++ o ∷ ys)
    → Apart a (xs ++ with_qty o q ∷ ys)
Apart-with_qty a [] ys o q h = h
Apart-with_qty a (x ∷ xs) ys o q h = (h.0, Apart-with_qty a xs ys o q h.1)

pub Distinct-with_qty :
    (xs ys : List Order) (o : Order) (q : ℤ)
    → Distinct (xs ++ o ∷ ys)
    → Distinct (xs ++ with_qty o q ∷ ys)
Distinct-with_qty [] ys o q h = h
Distinct-with_qty (x ∷ xs) ys o q h =
    (Apart-with_qty x.addr xs ys o q h.0, Distinct-with_qty xs ys o q h.1)

pub AllOpen-with_qty :
    (xs ys : List Order) (o : Order) (q : ℤ)
    → 0ℤ <ℤ q
    → AllOpen (xs ++ o ∷ ys)
    → AllOpen (xs ++ with_qty o q ∷ ys)
AllOpen-with_qty [] ys o q pos h = (pos, h.1)
AllOpen-with_qty (x ∷ xs) ys o q pos h = (h.0, AllOpen-with_qty xs ys o q pos h.1)

pub is_nil-with_qty :
    (xs ys : List Order) (o : Order) (q : ℤ) → is_nil (xs ++ with_qty o q ∷ ys) ≡ false
is_nil-with_qty [] ys o q = refl
is_nil-with_qty (x ∷ xs) ys o q = refl

pub copies-with_qty :
    (a : Addr) (xs ys : List Order) (o : Order) (q : ℤ)
    → copies a (xs ++ with_qty o q ∷ ys) ≡ copies a (xs ++ o ∷ ys)
copies-with_qty a xs ys o q =
    omega (arith, copies-without a xs ys o, copies-without a xs ys (with_qty o q))
