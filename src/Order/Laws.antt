-- ===== src/Order/Laws.antt =====
-- Queues of orders whose nodes have distinct addresses.
use hyperliquid_matching_eng.Base.{
  ◌≡◌, List, [], ◌∷◌, ◌++◌, arith, ◌≢◌, some, ap, inl, inr, Bool-cases, ◌==◌,
}
use hyperliquid_matching_eng.Base.Int.{ℤ, ◌<ℤ◌, 0ℤ}
use hyperliquid_matching_eng.Order.{Addr, Order, LevelFifo, deref, remove, set_qty, open_qty}

-- No node of the list is at address `a`.
abbrev pub Apart : Addr → List Order → Type 0
Apart a [] = Unit {0}
Apart a (o ∷ os) = (o.addr ≢ a) × Apart a os

abbrev pub Distinct : List Order → Type 0
Distinct [] = Unit {0}
Distinct (o ∷ os) = Apart o.addr os × Distinct os

-- Every order has something left to trade.
abbrev pub AllOpen : List Order → Type 0
AllOpen [] = Unit {0}
AllOpen (o ∷ os) = (0ℤ <ℤ o.qty) × AllOpen os

pub record IsLevel (l : LevelFifo) : Type 0 where
  pub distinct : Distinct l.orders
  pub all_open : AllOpen l.orders
  pub total : l.total_qty ≡ open_qty l.orders

pub remove-append :
    (o : Order) (xs ys : List Order) → Apart o.addr xs → remove o.addr (xs ++ o ∷ ys) ≡ xs ++ ys
unfolding remove
remove-append o [] ys h = ground arith
remove-append o (x ∷ xs) ys h = ground (arith, remove-append o xs ys)

pub set_qty-append :
    (o : Order) (q : ℤ) (xs ys : List Order)
    → Apart o.addr xs
    → set_qty o.addr q (xs ++ o ∷ ys) ≡ xs ++ record o { qty = q } ∷ ys
unfolding set_qty
set_qty-append o q [] ys h = ground arith
set_qty-append o q (x ∷ xs) ys h = ground (arith, set_qty-append o q xs ys)

-- Where in the queue an address is.
pub deref-split :
    (a : Addr) (os : List Order) (o : Order)
    → deref a os ≡ some o
    → (xs ys : List Order) × (os ≡ xs ++ o ∷ ys) × (o.addr ≡ a) × Apart a xs
unfolding deref
deref-split a [] o h = cc
deref-split a (x ∷ os) o h = elim (Bool-cases (x.addr == a)) [
  | inl hit ↦ ([], os, ground arith, ground arith, tt)
  | inr miss ↦
      let (xs, ys, e, f, g) = deref-split a os o (ground arith) in
      (x ∷ xs, ys, ap (λ zs. x ∷ zs) e, f, (ground arith, g))
]

pub Distinct-without :
    (xs ys : List Order) (o : Order) → Distinct (xs ++ o ∷ ys) → Distinct (xs ++ ys)
Distinct-without [] ys o h = h.1
Distinct-without (x ∷ xs) ys o h = (apart xs h.0, Distinct-without xs ys o h.1)
  where
    apart : (zs : List Order) → Apart x.addr (zs ++ o ∷ ys) → Apart x.addr (zs ++ ys)
    apart [] p = p.1
    apart (z ∷ zs) p = (p.0, apart zs p.1)
