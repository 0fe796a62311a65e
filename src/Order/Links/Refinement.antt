-- ===== src/Order/Links/Refinement.antt =====
-- The linked queue (include/hyperliquid/order.h) implements the list of its orders.
use hyperliquid_matching_eng.Base.{◌≡◌, refl, sym, ◌∙◌, ap, subst, List, [], ◌∷◌, ◌++◌, none, some}
use hyperliquid_matching_eng.Base.Int.{◌+ℤ◌, ◌-ℤ◌}
use hyperliquid_matching_eng.Order as Queue
use hyperliquid_matching_eng.Order.{Addr, Order, LevelFifo, deref, remove, set_qty}
use hyperliquid_matching_eng.Order.Laws.{
  Apart, Distinct, remove-append, deref-split, Distinct-without,
}
use hyperliquid_matching_eng.Order.Enqueue.{Distinct-append}
use hyperliquid_matching_eng.Order.Links.{
  Ptr, Store, write, LinkedFifo, link_next, link_prev, or_else, enqueue, erase,
}
use hyperliquid_matching_eng.Order.Links.Chains.{
  first, last, node, Chain, SameOutside, Agree-outside, Chain-Agree, Chain-write, Chain-split,
  Chain-append, last-append, link_next-Chain, link_prev-Chain, Distinct-split, AllApart-swap,
  AllApart-tail, Apart-append, write_self, write_other,
}

-- The queue with links holds the orders of the list: its nodes are linked both ways from the head
-- to the tail.
pub record Represents (h : Store) (f : LinkedFifo) (l : LevelFifo) : Type 0 where
  pub head : f.head ≡ first l.orders none
  pub tail : f.tail ≡ last none l.orders
  pub total_qty : f.total_qty ≡ l.total_qty
  pub chain : Chain h none l.orders none
  pub distinct : Distinct l.orders

-- `head` and `tail` after a node has joined.
or_else-last : (a : Addr) (os : List Order) (q m : Ptr) → or_else (last (some a) os) q m ≡ m
or_else-last a [] q m = refl
or_else-last a (o ∷ os) q m = or_else-last o.addr os q m

head-enqueue :
    (os : List Order) (o : Order)
    → or_else (last none os) (some o.addr) (first os none) ≡ first (os ++ o ∷ []) none
head-enqueue [] o = refl
head-enqueue (x ∷ os) o = or_else-last x.addr os (some o.addr) (some x.addr)

-- From a linked queue that holds the orders of a list, and a node that is not among them,
-- `enqueue` returns, and the queue holds the orders of the list with the node's at its end. Only
-- the nodes of the queue and the new one are written.
pub enqueue-Represents :
    (h : Store) (f : LinkedFifo) (l : LevelFifo) (o : Order) (prev next : Ptr)
    → Represents h f l
    → h o.addr ≡ some (node o prev next)
    → Apart o.addr l.orders
    → (f' : LinkedFifo) × (h' : Store) × (enqueue f o.addr h ≡ some (f', h'))
      × Represents h' f' (Queue.enqueue l o)
      × SameOutside (l.orders ++ o ∷ []) h' h
unfolding enqueue Queue.enqueue
enqueue-Represents h f l o prev next r here apart =
    let os = l.orders in
    let placed = write h o.addr (node o (last none os) none) in
    let (g, e, chain, same) =
      link_next-Chain placed os none (some o.addr) r.distinct
        (Chain-write h o.addr _ none os none apart r.chain) in
    let at : g o.addr ≡ some (node o (last none os) none) =
      same o.addr apart ∙ write_self h o.addr _ in
    (
      record {
        head = or_else (last none os) (some o.addr) f.head;
        tail = some o.addr;
        total_qty = f.total_qty +ℤ o.qty;
      },
      g,
      rw (here, enqueue, r.tail, e, at) refl,
      record {
        head = rw (r.head) (head-enqueue os o);
        tail = sym (last-append none os (o ∷ []));
        total_qty = ap (λ t. t +ℤ o.qty) r.total_qty;
        chain = Chain-append g none os (o ∷ []) none chain (at, tt);
        distinct = Distinct-append os o r.distinct apart;
      },
      λ a outside.
          let (away, new) = Apart-append a os (o ∷ []) outside in
          same a away ∙ write_other h o.addr a _ new.0,
    )

-- `head` and `tail` after a node has left.
head-erase :
    (xs ys : List Order) (o : Order)
    → or_else (last none xs) (first ys none) (first (xs ++ o ∷ ys) none) ≡ first (xs ++ ys) none
head-erase [] ys o = refl
head-erase (x ∷ xs) ys o = or_else-last x.addr xs (first ys none) (some x.addr)

tail-erase :
    (xs ys : List Order) (o : Order)
    → or_else (first ys none) (last none xs) (last none (xs ++ o ∷ ys)) ≡ last none (xs ++ ys)
tail-erase xs [] o = sym (last-append none xs [])
tail-erase xs (y ∷ ys) o = last-append none xs (o ∷ y ∷ ys) ∙ sym (last-append none xs (y ∷ ys))

-- What becomes of the store when the node between two parts of a queue is taken out.
record Unlinked (h : Store) (xs ys : List Order) (o : Order) : Type 0 where
  forward : Store
  backward : Store
  steps_forward : link_next (last none xs) (first ys none) h ≡ some forward
  steps_backward : link_prev (first ys none) (last none xs) forward ≡ some backward
  at : h o.addr ≡ some (node o (last none xs) (first ys none))
  at_forward : forward o.addr ≡ some (node o (last none xs) (first ys none))
  at_backward : backward o.addr ≡ some (node o (last none xs) (first ys none))
  chain : Chain (write backward o.addr (node o none none)) none (xs ++ ys) none
  same : (a : Addr) → Apart a (xs ++ o ∷ ys) → backward a ≡ h a

unlink :
    (h : Store) (xs ys : List Order) (o : Order)
    → Chain h none (xs ++ o ∷ ys) none
    → Distinct (xs ++ o ∷ ys)
    → Unlinked h xs ys o
unlink h xs ys o c d =
    let (dx, dy, apart) = Distinct-split xs (o ∷ ys) d in
    let xs_ys = AllApart-tail xs o ys apart in
    let (o_xs, ys_xs) = AllApart-swap xs (o ∷ ys) apart in
    let (cx, (co, cy)) = Chain-split h none xs (o ∷ ys) none c in
    let (g, e, gx, g_same) = link_next-Chain h xs (some o.addr) (first ys none) dx cx in
    let gy = Chain-Agree g h (some o.addr) ys none (Agree-outside g h ys xs g_same ys_xs) cy in
    let (k, f, ky, k_same) = link_prev-Chain g (some o.addr) (last none xs) ys dy.1 gy in
    let kx = Chain-Agree k g none xs (first ys none) (Agree-outside k g xs ys k_same xs_ys) gx in
    record {
      forward = g;
      backward = k;
      steps_forward = e;
      steps_backward = f;
      at = co;
      at_forward = g_same o.addr o_xs ∙ co;
      at_backward = k_same o.addr dy.0 ∙ g_same o.addr o_xs ∙ co;
      chain =
          Chain-append (write k o.addr (node o none none)) none xs ys none
            (Chain-write k o.addr _ none xs (first ys none) o_xs kx)
            (Chain-write k o.addr _ (last none xs) ys none dy.0 ky);
      same = λ a away.
          let (out_x, (out_o, out_y)) = Apart-append a xs (o ∷ ys) away in
          k_same a out_y ∙ g_same a out_x;
    }

erase-Unlinked :
    (h : Store) (f : LinkedFifo) (xs ys : List Order) (o : Order) (u : Unlinked h xs ys o)
    → erase f o.addr h
      ≡ some (
        record {
          head = or_else (last none xs) (first ys none) f.head;
          tail = or_else (first ys none) (last none xs) f.tail;
          total_qty = f.total_qty -ℤ o.qty;
        },
        write u.backward o.addr (node o none none),
      )
unfolding erase
erase-Unlinked h f xs ys o u =
    rw (u.at, erase, u.steps_forward, u.at_forward, u.steps_backward, u.at_backward) refl

-- From a linked queue that holds the orders of a list, and the node of one of them, `erase`
-- returns, and the queue holds the other orders as they stood. The node has lost its links, and
-- no node outside the queue is written.
pub erase-Represents :
    (h : Store) (f : LinkedFifo) (l : LevelFifo) (a : Addr) (o : Order)
    → Represents h f l
    → deref a l.orders ≡ some o
    → (f' : LinkedFifo) × (h' : Store) × (erase f a h ≡ some (f', h'))
      × Represents h' f' (Queue.erase l o)
      × (h' a ≡ some (node o none none))
      × SameOutside l.orders h' h
unfolding erase Queue.erase
erase-Represents h f l a o r found =
    let (xs, ys, e, at, apart) = deref-split a l.orders o found in
    let d : Distinct (xs ++ o ∷ ys) = rw e at r.distinct in
    let c : Chain h none (xs ++ o ∷ ys) none = rw e at r.chain in
    let u = unlink h xs ys o c d in
    let left : remove o.addr l.orders ≡ xs ++ ys =
      rw e (remove-append o xs ys (subst (λ k. Apart k xs) (sym at) apart)) in
    let h' = write u.backward o.addr (node o none none) in
    let f' : LinkedFifo = record {
      head = or_else (last none xs) (first ys none) f.head;
      tail = or_else (first ys none) (last none xs) f.tail;
      total_qty = f.total_qty -ℤ o.qty;
    } in
    (
      f',
      h',
      subst (λ k. erase f k h ≡ some (f', h')) at (erase-Unlinked h f xs ys o u),
      record {
        head = rw (left, r.head, e) (head-erase xs ys o);
        tail = rw (left, r.tail, e) (tail-erase xs ys o);
        total_qty = ap (λ t. t -ℤ o.qty) r.total_qty;
        chain = rw left (u.chain);
        distinct = rw left (Distinct-without xs ys o d);
      },
      subst (λ k. h' k ≡ some (node o none none)) at (write_self u.backward o.addr _),
      λ b outside.
          let away : Apart b (xs ++ o ∷ ys) = rw e at outside in
          write_other u.backward o.addr b _ (Apart-append b xs (o ∷ ys) away).1.0 ∙ u.same b away,
    )
