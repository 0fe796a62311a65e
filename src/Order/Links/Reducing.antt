-- ===== src/Order/Links/Reducing.antt =====
-- `reduce_qty` of the linked queue (include/hyperliquid/order.h).
use hyperliquid_matching_eng.Base.{◌≡◌, refl, sym, ◌∙◌, ap, subst, List, [], ◌∷◌, ◌++◌, none, some}
use hyperliquid_matching_eng.Base.Int.{◌-ℤ◌}
use hyperliquid_matching_eng.Types.{Quantity}
use hyperliquid_matching_eng.Order as Queue
use hyperliquid_matching_eng.Order.{Addr, Order, LevelFifo, deref, remove, set_qty}
use hyperliquid_matching_eng.Order.Laws.{Apart, Distinct, set_qty-append, deref-split}
use hyperliquid_matching_eng.Order.Links.{Ptr, Store, write, LinkedFifo, reduce_qty}
use hyperliquid_matching_eng.Order.Links.Refinement.{Represents}
use hyperliquid_matching_eng.Order.Links.Chains.{
  first, last, node, Chain, SameOutside, Chain-write, Chain-split, Chain-append, Distinct-split,
  AllApart-swap, Apart-append, write_self, write_other,
}

-- Another order at the same node.
module _ (o less : Order) (same : less.addr ≡ o.addr) where
  first-less : (xs ys : List Order) → first (xs ++ o ∷ ys) none ≡ first (xs ++ less ∷ ys) none
  first-less [] ys = ap some (sym same)
  first-less (x ∷ xs) ys = refl

  last-less :
      (before : Ptr) (xs ys : List Order)
      → last before (xs ++ o ∷ ys) ≡ last before (xs ++ less ∷ ys)
  last-less before [] ys = ap (λ a. last (some a) ys) (sym same)
  last-less before (x ∷ xs) ys = last-less (some x.addr) xs ys

  Apart-less : (a : Addr) (xs ys : List Order) → Apart a (xs ++ o ∷ ys) → Apart a (xs ++ less ∷ ys)
  Apart-less a [] ys h = (λ e. h.0 (sym same ∙ e), h.1)
  Apart-less a (x ∷ xs) ys h = (h.0, Apart-less a xs ys h.1)

  Distinct-less : (xs ys : List Order) → Distinct (xs ++ o ∷ ys) → Distinct (xs ++ less ∷ ys)
  Distinct-less [] ys d = (subst (λ a. Apart a ys) (sym same) d.0, d.1)
  Distinct-less (x ∷ xs) ys d = (Apart-less x.addr xs ys d.0, Distinct-less xs ys d.1)

-- From a linked queue that holds the orders of a list, and the node of one of them, `reduce_qty`
-- returns; the order has lost the quantity, and so has the total. All the links, and the nodes
-- outside the queue, stay.
pub reduce_qty-Represents :
    (h : Store) (f : LinkedFifo) (l : LevelFifo) (a : Addr) (o : Order) (q : Quantity)
    → Represents h f l
    → deref a l.orders ≡ some o
    → (f' : LinkedFifo) × (h' : Store) × (reduce_qty f a q h ≡ some (f', h'))
      × Represents h' f' (Queue.reduce_qty l o q)
      × SameOutside l.orders h' h
unfolding reduce_qty Queue.reduce_qty
reduce_qty-Represents h f l a o q r found =
    let (xs, ys, e, at, apart) = deref-split a l.orders o found in
    let d : Distinct (xs ++ o ∷ ys) = rw e at r.distinct in
    let c : Chain h none (xs ++ o ∷ ys) none = rw e at r.chain in
    let (dx, dy, xs_o) = Distinct-split xs (o ∷ ys) d in
    let (o_xs, ys_xs) = AllApart-swap xs (o ∷ ys) xs_o in
    let (cx, (co, cy)) = Chain-split h none xs (o ∷ ys) none c in
    let less : Order = record o { qty = o.qty -ℤ q } in
    let n = node less (last none xs) (first ys none) in
    let h' = write h o.addr n in
    let done : set_qty o.addr (o.qty -ℤ q) l.orders ≡ xs ++ less ∷ ys =
      rw e (set_qty-append o (o.qty -ℤ q) xs ys (subst (λ k. Apart k xs) (sym at) apart)) in
    (
      record f { total_qty = f.total_qty -ℤ q },
      h',
      subst (λ k. reduce_qty f k q h ≡ some (record f { total_qty = f.total_qty -ℤ q }, h')) at
          (rw (co, reduce_qty) refl),
      record {
        head = rw (done, r.head, e) (first-less o less refl xs ys);
        tail = rw (done, r.tail, e) (last-less o less refl none xs ys);
        total_qty = ap (λ t. t -ℤ q) r.total_qty;
        chain = rw done (
            Chain-append h' none xs (less ∷ ys) none
              (Chain-write h o.addr n none xs (some o.addr) o_xs cx)
              (write_self h o.addr n, Chain-write h o.addr n (some o.addr) ys none dy.0 cy));
        distinct = rw done (Distinct-less o less refl xs ys d);
      },
      λ b outside.
          let away : Apart b (xs ++ o ∷ ys) = rw e at outside in
          write_other h o.addr b n (Apart-append b xs (o ∷ ys) away).1.0,
    )
