-- ===== src/Order/Copies.antt =====
-- How often the node at an address is in use: in the queues of include/hyperliquid/order.h, and in
-- the free list of include/hyperliquid/mempool.h.
use hyperliquid_matching_eng.Base.{
  ℕ, zero, suc, ◌+◌, ◌≡◌, refl, sym, ap, ◌∙◌, arith, List, [], ◌∷◌, ◌++◌, some, ◌==◌, if◌then◌else◌,
  get_elem?, set, some_inj,
}
use hyperliquid_matching_eng.Order.{Addr, Order, LevelFifo, enqueue}
use hyperliquid_matching_eng.Order.Laws.{Apart}
use hyperliquid_matching_eng.SlabPool.{SlabPool}

abbrev pub one : Addr → Addr → ℕ
one a b = if b == a then 1 else 0

unfoldable pub count : Addr → List Addr → ℕ
count a [] = 0
count a (b ∷ bs) = one a b + count a bs

unfoldable pub copies : Addr → List Order → ℕ
copies a [] = 0
copies a (o ∷ os) = one a o.addr + copies a os

-- Over all levels of a side.
unfoldable pub held : Addr → List LevelFifo → ℕ
held a [] = 0
held a (l ∷ ls) = copies a l.orders + held a ls

pub copies-append :
    (a : Addr) (xs ys : List Order) → copies a (xs ++ ys) ≡ copies a xs + copies a ys
unfolding copies
copies-append a [] ys = omega arith
copies-append a (x ∷ xs) ys = omega (arith, copies-append a xs ys)

pub held-set :
    (a : Addr) (ls : List LevelFifo) (i : ℕ) (old l : LevelFifo)
    → get_elem? ls i ≡ some old
    → held a (set ls i l) + copies a old.orders ≡ held a ls + copies a l.orders
unfolding held
held-set a [] i old l h = cc
held-set a (x ∷ ls) zero old l h =
    let same : copies a x.orders ≡ copies a old.orders =
      ap (λ (y : LevelFifo). copies a y.orders) (some_inj h) in
    omega (arith, same)
held-set a (x ∷ ls) (suc i) old l h = omega (arith, held-set a ls i old l h)

pub copies-le-held :
    (a : Addr) (ls : List LevelFifo) (i : ℕ) (l : LevelFifo)
    → get_elem? ls i ≡ some l
    → held a ls ≡ 0
    → copies a l.orders ≡ 0
unfolding held
copies-le-held a [] i l h z = cc
copies-le-held a (x ∷ ls) zero l h z =
    ap (λ (y : LevelFifo). copies a y.orders) (sym (some_inj h)) ∙ omega arith
copies-le-held a (x ∷ ls) (suc i) l h z = copies-le-held a ls i l h (omega arith)

pub Apart-of_copies : (a : Addr) (os : List Order) → copies a os ≡ 0 → Apart a os
unfolding copies
Apart-of_copies a [] h = tt
Apart-of_copies a (o ∷ os) h = (ground arith, Apart-of_copies a os (omega arith))

-- Taking one order out takes one copy of its address out.
pub copies-without :
    (a : Addr) (xs ys : List Order) (o : Order)
    → one a o.addr + copies a (xs ++ ys) ≡ copies a (xs ++ o ∷ ys)
unfolding copies
copies-without a [] ys o = refl
copies-without a (x ∷ xs) ys o = omega (arith, copies-without a xs ys o)

-- Two ways of sharing the nodes between the pool and the queues: the pool keeps its slabs, and
-- every address is in use as often as before.
pub record IsMoved (p p' : SlabPool) (used used' : Addr → ℕ) : Type 0 where
  pub slab_objects : p'.slab_objects ≡ p.slab_objects
  pub num_slabs : p'.num_slabs ≡ p.num_slabs
  pub balance : (a : Addr) → count a p'.free_list + used' a ≡ count a p.free_list + used a

pub IsMoved-refl : (p : SlabPool) (used : Addr → ℕ) → IsMoved p p used used
IsMoved-refl p used = record { slab_objects = refl; num_slabs = refl; balance = λ a. refl }

pub IsMoved-trans :
    (p q r : SlabPool) (u v w : Addr → ℕ) → IsMoved p q u v → IsMoved q r v w → IsMoved p r u w
IsMoved-trans p q r u v w m n = record {
  slab_objects = n.slab_objects ∙ m.slab_objects;
  num_slabs = n.num_slabs ∙ m.num_slabs;
  balance = λ a. n.balance a ∙ m.balance a;
}

-- An order that joins a queue brings one copy of its address.
pub copies-enqueue :
    (a : Addr) (l : LevelFifo) (o : Order)
    → copies a (enqueue l o).orders ≡ one a o.addr + copies a l.orders
unfolding enqueue copies
copies-enqueue a l o = copies-append a l.orders (o ∷ []) ∙ omega arith
