-- ===== src/Book/InPlace.antt =====
-- `modify` of include/hyperliquid/order_book.h where the order keeps its place.
use hyperliquid_matching_eng.Base.{
  if◌then◌else◌, ℕ, ◌≡◌, refl, false, arith, some, sym, ◌∙◌, ap, subst, ◌++◌, ◌∷◌, ◌&&◌, ◌==◌,
}
use hyperliquid_matching_eng.Base.Int.{
  ℤ, ◌-ℤ◌, ◌<ℤ◌, ltb_ℤ, 0ℤ, +ℤ_parts, -ℤ_parts, eq_of_parts, Same-of_eq,
}
use hyperliquid_matching_eng.Types.{OrderId, Tick, Quantity, Timestamp}
use hyperliquid_matching_eng.Command.{exec_result}
use hyperliquid_matching_eng.Order.{
  Addr, Order, LevelFifo, is_empty, deref, reduce_qty, set_qty, open_qty,
}
use hyperliquid_matching_eng.Order.Laws.{Apart, IsLevel, set_qty-append, deref-split}
use hyperliquid_matching_eng.Order.Copies.{copies, held-set}
use hyperliquid_matching_eng.Order.Resizing.{
  with_qty, Distinct-with_qty, AllOpen-with_qty, is_nil-with_qty, copies-with_qty,
}
use hyperliquid_matching_eng.SlabPool.Sharing.{IsShared, IsShared-same}
use hyperliquid_matching_eng.Book.State.{OrderBook, OrderEntry, levels_of, with_levels, opposite}
use hyperliquid_matching_eng.Book.Cancel.{modify, resize_in_place, replace}
use hyperliquid_matching_eng.Book.Sides.{IsSide, Recedes, Recedes-refl}
use hyperliquid_matching_eng.Book.Filled.{filled, IsArray-filled, Recedes-filled}
use hyperliquid_matching_eng.Book.Erasing.{
  get_level-slot, put_level-filled, slot_of, open_qty-without,
}
use hyperliquid_matching_eng.Book.Takers.{IsBook-side, reply-Answer}
use hyperliquid_matching_eng.Book.Without.{kept-IsMarked}
use hyperliquid_matching_eng.Book.Cancels.{IsLive, Announced-levels}
use hyperliquid_matching_eng.Book.Resting.{rewritten-Rewritten, joined-IsBook}
use hyperliquid_matching_eng.Book.Sound.{
  IsSound, nodes_from, IsShared-from, sound_from, Announced-IsSound,
}

-- The queue with the quantity of the order at a node lowered to `q`.
abbrev pub at_node : Addr → LevelFifo → Order → Quantity → LevelFifo
at_node a l o q = record { orders = set_qty a q l.orders; total_qty = l.total_qty -ℤ (o.qty -ℤ q) }

abbrev lowered : LevelFifo → Order → Quantity → LevelFifo
lowered l o q = at_node o.addr l o q

-- What is known of a queue in which one order's quantity is lowered to `q`.
record Lowered (l : LevelFifo) (o : Order) (q : Quantity) : Type 0 where
  queue : IsLevel (reduce_qty l o (o.qty -ℤ q))
  level : reduce_qty l o (o.qty -ℤ q) ≡ lowered l o q
  holds : is_empty (reduce_qty l o (o.qty -ℤ q)) ≡ false
  nodes : (a : Addr) → copies a (reduce_qty l o (o.qty -ℤ q)).orders ≡ copies a l.orders

lowered_to : (a q : ℤ) → a -ℤ (a -ℤ q) ≡ q
lowered_to a q = eq_of_parts _ _ (omega (arith, -ℤ_parts))

reduce_qty-Lowered :
    (l : LevelFifo) (a : Addr) (o : Order) (q : Quantity)
    → IsLevel l
    → deref a l.orders ≡ some o
    → 0ℤ <ℤ q
    → Lowered l o q
unfolding reduce_qty
reduce_qty-Lowered l a o q v h pos =
    let (xs, ys, e, at, apart) = deref-split a l.orders o h in
    let away : Apart o.addr xs = subst (λ k. Apart k xs) (sym at) apart in
    let done : set_qty o.addr (o.qty -ℤ (o.qty -ℤ q)) l.orders ≡ xs ++ with_qty o q ∷ ys =
      rw (lowered_to o.qty q, e) (set_qty-append o q xs ys away) in
    record {
      queue = record {
        distinct = rw done (Distinct-with_qty xs ys o q (rw e at (v.distinct)));
        all_open = rw done (AllOpen-with_qty xs ys o q pos (rw e at (v.all_open)));
        total = rw done (
            eq_of_parts _ _ (
              omega (
                arith,
                +ℤ_parts,
                -ℤ_parts,
                Same-of_eq _ _ (v.total ∙ ap open_qty e),
                Same-of_eq _ _ (open_qty-without xs ys o),
                Same-of_eq _ _ (open_qty-without xs ys (with_qty o q)),
              )));
      };
      level = rw (lowered_to o.qty q) refl;
      holds = rw done (is_nil-with_qty xs ys o q);
      nodes = λ b. ap (copies b) done ∙ copies-with_qty b xs ys o q ∙ ap (copies b) (sym e);
    }

-- What lowering the quantity of an order in its place changes: of its side only that order's
-- quantity and, by as much, the total of its level, so that the best price and its pointer stay.
pub record Resized (e : OrderEntry) (o : Order) (q : Quantity) (level : LevelFifo)
    (b b' : OrderBook) : Type 0 where
  pub side :
      levels_of e.side b'
      ≡ filled
          (levels_of e.side b)
          (slot_of (levels_of e.side b) e.price)
          (at_node e.node level o q)
  pub other : levels_of (opposite e.side) b' ≡ levels_of (opposite e.side) b
  pub recedes : Recedes e.side (levels_of e.side b) (levels_of e.side b')
  pub id_index : b'.id_index ≡ b.id_index
  pub order_pool : b'.order_pool ≡ b.order_pool

module _ (now_ns : ℕ → Timestamp) (id : OrderId) (b : OrderBook) (e : OrderEntry) (o : Order)
    (w : IsLive id b e o) where
  node-addr : o.addr ≡ e.node
  node-addr = let (xs, ys, eq, at, apart) = deref-split e.node w.level.orders o w.node in at

  pub resize_in_place_lem :
      (q : Quantity)
      → IsSound b
      → 0ℤ <ℤ q
      → (b' : OrderBook) × (resize_in_place now_ns e o q b ≡ some (exec_result 0ℤ q, b'))
        × Resized e o q w.level b b'
        × IsSound b'
  unfolding resize_in_place
  resize_in_place_lem q v pos =
      let s = e.side in
      let p = levels_of s b in
      let i = slot_of p e.price in
      let l = reduce_qty w.level o (o.qty -ℤ q) in
      let (good, here) = get_level-slot p e.price w.level w.at in
      let side = IsBook-side s b v.book in
      let low =
        reduce_qty-Lowered w.level e.node o q (side.array.queues i w.level here) w.node pos in
      let r = rewritten-Rewritten s (filled p i l) b.order_pool b.id_index b in
      let is_side : IsSide s (filled p i l) = record {
        array = IsArray-filled p i l side.array low.queue;
        marked = kept-IsMarked s p e.price w.level l side.marked w.at low.holds;
      } in
      let book =
        joined-IsBook s (filled p i l) b.order_pool b.id_index b v.book is_side v.book.table in
      let c = with_levels s (filled p i l) b in
      let same : (a : Addr) → nodes_from s c a ≡ nodes_from s b a = λ a.
        rw (r.same, r.other) (omega (arith, low.nodes a, held-set a p.levels i w.level l here)) in
      let sound = sound_from s c book (
        subst (λ n. IsShared n (nodes_from s c)) (sym r.order_pool)
          (IsShared-same b.order_pool (nodes_from s b) (nodes_from s c) same
            (IsShared-from s b v))) in
      let (b', f, a) =
        reply-Answer now_ns (exec_result 0ℤ q) c sound.book.bids.marked sound.book.asks.marked in
      (
        b',
        rw (w.at, put_level-filled p e.price l good) f,
        record {
          side =
              Announced-levels s c b' a
              ∙ r.same
              ∙ ap (filled p i) (low.level ∙ ap (λ k. at_node k w.level o q) node-addr);
          other = Announced-levels (opposite s) c b' a ∙ r.other;
          recedes =
              subst (λ z. Recedes s p z) (sym (Announced-levels s c b' a ∙ r.same))
                (Recedes-filled s p (filled p i l) i l (Recedes-refl s (filled p i l)));
          id_index = a.id_index ∙ r.id_index;
          order_pool = a.order_pool ∙ r.order_pool;
        },
        Announced-IsSound c b' sound a,
      )

  pub modify-live :
      (px : Tick) (q : Quantity)
      → modify now_ns id px q b ≡ (
          if (px == e.price) && ltb_ℤ q o.qty
          then resize_in_place now_ns e o q b
          else replace now_ns id e o px q b)
  unfolding modify
  modify-live px q = rw (w.found, modify, w.at, w.node) refl
