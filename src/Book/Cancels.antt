-- ===== src/Book/Cancels.antt =====
-- `cancel` (include/hyperliquid/order_book.h): what it does to a book that is well formed, and the
-- best price that it leaves.
use hyperliquid_matching_eng.Base.{
  ℕ, ◌≡◌, ◌≢◌, refl, true, arith, some, inl, inr, Bool-cases, subst, sym, ◌∙◌, ap, set,
}
use hyperliquid_matching_eng.Base.Int.{◌+ℤ◌, ◌-ℤ◌, +ℤ_parts, -ℤ_parts, eq_of_parts, Same-of_eq}
use hyperliquid_matching_eng.Types.{OrderId, Tick, Timestamp, Side, bid, ask}
use hyperliquid_matching_eng.Order.{Order, LevelFifo, is_empty, erase, deref}
use hyperliquid_matching_eng.PriceLevels.{PriceLevels, get_level, has_level, is_valid_price, idx}
use hyperliquid_matching_eng.SlabPool
use hyperliquid_matching_eng.FlatMap
use hyperliquid_matching_eng.FlatMap.Counting.{IsTable}
use hyperliquid_matching_eng.FlatMap.Probing.{erase-IsTable}
use hyperliquid_matching_eng.Book.State.{
  OrderBook, OrderEntry, levels_of, with_levels, best_of, empty_of, opposite, refresh_levels,
  refresh_best_after_depletion,
}
use hyperliquid_matching_eng.Book.Submit.{reply}
use hyperliquid_matching_eng.Book.Cancel.{unlink, cancel}
use hyperliquid_matching_eng.Book.Search.{Better}
use hyperliquid_matching_eng.Book.Sides.{
  IsSide, IsArray, Recedes, refresh_levels-IsRefreshed, has_level-valid, valid-bounds,
}
use hyperliquid_matching_eng.Book.Filled.{filled, IsArray-filled, valid-filled}
use hyperliquid_matching_eng.Book.Matched.{depth, sum_ℤ-set}
use hyperliquid_matching_eng.Book.Takers.{IsBook, IsBook-side, Announced, reply-Answer}
use hyperliquid_matching_eng.Book.Erasing.{
  erase-IsLevel, get_level-slot, put_level-filled, has_level-filled_ne, slot_of,
}
use hyperliquid_matching_eng.Book.Without.{best-filled, without, without-IsSide}

refresh-with_levels :
    (s : Side) (p : PriceLevels) (b : OrderBook)
    → refresh_best_after_depletion s (with_levels s p b) ≡ with_levels s (refresh_levels s p) b
unfolding refresh_best_after_depletion
refresh-with_levels bid p b = refl
refresh-with_levels ask p b = refl

-- The book after `unlink`.
abbrev unlinked : OrderEntry → LevelFifo → OrderBook → OrderBook
unlinked e left b =
    with_levels e.side (without e.side p (slot_of p e.price) left)
      (record b { order_pool = SlabPool.free b.order_pool e.node })
  where
    p : PriceLevels
    p = levels_of e.side b

unlink_lem :
    (e : OrderEntry) (b : OrderBook) (level : LevelFifo) (o : Order)
    → get_level (levels_of e.side b) e.price ≡ some level
    → deref e.node level.orders ≡ some o
    → unlink e b ≡ some (unlinked e (erase level o) b)
unfolding unlink
unlink_lem e b level o at node =
    let p = levels_of e.side b in
    let put = put_level-filled p e.price (erase level o) (get_level-slot p e.price level at).0 in
    let b0 = record b { order_pool = SlabPool.free b.order_pool e.node } in
    elim (Bool-cases (is_empty (erase level o))) [
      | inl out ↦
          rw (at, node, put, out)
            (ap some (refresh-with_levels e.side (filled p (slot_of p e.price) (erase level o)) b0))
      | inr holds ↦ rw (at, node, put, holds) refl
    ]

with_levels-IsBook :
    (s : Side) (p : PriceLevels) (b b0 b2 : OrderBook)
    → IsBook b
    → IsSide s p
    → b0.bids ≡ b.bids
    → b0.asks ≡ b.asks
    → IsTable b2.id_index
    → b2.bids ≡ (with_levels s p b0).bids
    → b2.asks ≡ (with_levels s p b0).asks
    → IsBook b2 × (levels_of s b2 ≡ p) × (levels_of (opposite s) b2 ≡ levels_of (opposite s) b)
with_levels-IsBook bid p b b0 b2 v w e f t g h = (
  record { bids = subst (IsSide bid) (sym g) w; asks = rw (h ∙ f) (v.asks); table = t },
  g,
  h ∙ f,
)
with_levels-IsBook ask p b b0 b2 v w e f t g h = (
  record { bids = rw (g ∙ e) (v.bids); asks = subst (IsSide ask) (sym h) w; table = t },
  h,
  g ∙ e,
)

has_level-same :
    (p q : PriceLevels) (px : Tick)
    → q.levels ≡ p.levels
    → q.band ≡ p.band
    → has_level q px ≡ has_level p px
unfolding has_level get_level idx is_valid_price
has_level-same p q px e f = rw (e, f) refl

Better-than_empty :
    (s : Side) (p : PriceLevels)
    → IsArray p
    → is_valid_price p (best_of s p) ≡ true
    → Better s (best_of s p) (empty_of s)
Better-than_empty bid p v h = omega (arith, v.band.low, valid-bounds p p.best_bid h)
Better-than_empty ask p v h = omega (arith, v.band.high, valid-bounds p p.best_ask h)

-- The search after a level behind the best one has been emptied starts at the best one, and leaves
-- it out.
hidden :
    (s : Side) (p : PriceLevels) (px : Tick) (l : LevelFifo)
    → IsArray p
    → IsArray (filled p (slot_of p px) l)
    → is_valid_price p px ≡ true
    → has_level p (best_of s p) ≡ true
    → px ≢ best_of s p
    → let q = refresh_levels s (filled p (slot_of p px) l) in
      (has_level q (best_of s p) ≡ true) × Better s (best_of s p) (best_of s q)
hidden s p px l v arr good held behind =
    let i = slot_of p px in
    let valid = has_level-valid p (best_of s p) held in
    let r = refresh_levels-IsRefreshed s (filled p i l) arr.band (valid-filled s p i l valid) in
    (
      has_level-same (filled p i l) (refresh_levels s (filled p i l)) (best_of s p) r.levels r.band
          ∙ has_level-filled_ne p px (best_of s p) l good behind
          ∙ held,
      elim (r.next) [
        | inl bare ↦ rw (bare.0) (Better-than_empty s p v valid)
        | inr found ↦
            subst (λ x. Better s x (best_of s (refresh_levels s (filled p i l))))
              (best-filled s p i l) (found.1)
      ],
    )

total-erase : (l : LevelFifo) (o : Order) → (erase l o).total_qty ≡ l.total_qty -ℤ o.qty
unfolding erase
total-erase l o = refl

-- An order that the index knows, with its level and the order that its pointer leads to.
pub record IsLive (id : OrderId) (b : OrderBook) (e : OrderEntry) (o : Order) : Type 0 where
  pub level : LevelFifo
  pub found : FlatMap.find b.id_index id ≡ some e
  pub at : get_level (levels_of e.side b) e.price ≡ some level
  pub node : deref e.node level.orders ≡ some o

-- What is left of the level.
abbrev pub rest_of :
    {id : OrderId} {b : OrderBook} {e : OrderEntry} {o : Order} → IsLive id b e o → LevelFifo
rest_of {o = o} w = erase w.level o

-- The side of a cancelled order before and after.
pub record Erased (e : OrderEntry) (o : Order) (left : LevelFifo) (b b' : OrderBook) : Type 0 where
  pub levels :
      (levels_of e.side b').levels
      ≡ set (levels_of e.side b).levels (slot_of (levels_of e.side b) e.price) left
  pub falls : depth (levels_of e.side b') +ℤ o.qty ≡ depth (levels_of e.side b)
  pub other : levels_of (opposite e.side) b' ≡ levels_of (opposite e.side) b
  pub band : (levels_of e.side b').band ≡ (levels_of e.side b).band
  pub recedes : Recedes e.side (levels_of e.side b) (levels_of e.side b')
  pub freed : b'.order_pool ≡ SlabPool.free b.order_pool e.node

pub Announced-levels :
    (s : Side) (b b' : OrderBook) → Announced b b' → levels_of s b' ≡ levels_of s b
Announced-levels bid b b' a = a.bids
Announced-levels ask b b' a = a.asks

pub Announced-IsBook : (b b' : OrderBook) → IsBook b → Announced b b' → IsBook b'
Announced-IsBook b b' v a = record {
  bids = rw (a.bids) (v.bids);
  asks = rw (a.asks) (v.asks);
  table = rw (a.id_index) (v.table);
}

with_levels-sides :
    (s : Side) (p : PriceLevels) (b : OrderBook) (index : FlatMap.FlatMap OrderEntry)
    → let c = with_levels s p b in
      ((record c { id_index = index }).bids ≡ c.bids)
      × ((record c { id_index = index }).asks ≡ c.asks)
with_levels-sides s p b index = (refl, refl)

module _ (now_ns : ℕ → Timestamp) (id : OrderId) (b : OrderBook) (e : OrderEntry) (o : Order) where
  cancel-unlinked :
      (w : IsLive id b e o) (index : FlatMap.FlatMap OrderEntry)
      → FlatMap.erase (unlinked e (rest_of w) b).id_index id ≡ some index
      → cancel now_ns id b
        ≡ reply now_ns true (record (unlinked e (rest_of w) b) { id_index = index })
  unfolding cancel
  cancel-unlinked w index q = rw (w.found, cancel, unlink_lem e b w.level o w.at w.node, q) refl

  unlinked-index : (left : LevelFifo) → (unlinked e left b).id_index ≡ b.id_index
  unlinked-index left = index e.side _
    where
      index :
          (s : Side) (p : PriceLevels)
          → (with_levels s p (record b { order_pool = SlabPool.free b.order_pool e.node })).id_index
            ≡ b.id_index
      index bid p = refl
      index ask p = refl

  unlinked-pool :
      (left : LevelFifo) → (unlinked e left b).order_pool ≡ SlabPool.free b.order_pool e.node
  unlinked-pool left = pool e.side _
    where
      pool :
          (s : Side) (p : PriceLevels)
          → (with_levels s p
              (record b { order_pool = SlabPool.free b.order_pool e.node })).order_pool
            ≡ SlabPool.free b.order_pool e.node
      pool bid p = refl
      pool ask p = refl

  -- On a well-formed book, cancelling an order that the index knows and whose pointer leads to an
  -- order of its level always returns true. The book stays well formed, the order's level is what
  -- erasing the order leaves, the quantity that rests on its side falls by the order's, and the
  -- other side is as it was.
  pub cancel_lem :
      (w : IsLive id b e o)
      → IsBook b
      → (b' : OrderBook) × (cancel now_ns id b ≡ some (true, b'))
        × IsBook b'
        × Erased e o (rest_of w) b b'
        × (levels_of e.side b'
            ≡ without e.side
                (levels_of e.side b)
                (slot_of (levels_of e.side b) e.price)
                (rest_of w))
  cancel_lem w v =
      let s = e.side in
      let p = levels_of s b in
      let left = rest_of w in
      let b0 = record b { order_pool = SlabPool.free b.order_pool e.node } in
      let (good, here) = get_level-slot p e.price w.level w.at in
      let side = IsBook-side s b v in
      let queue = side.array.queues (slot_of p e.price) w.level here in
      let (is_side, same, band, recedes) =
        without-IsSide s p e.price w.level left side w.at
          (erase-IsLevel w.level e.node o queue w.node) in
      let (index, q, t) =
        erase-IsTable (unlinked e left b).id_index id
          (subst (λ m. IsTable m) (sym (unlinked-index left)) v.table) in
      let b2 = record (unlinked e left b) { id_index = index } in
      let (v2, mine, other) =
        with_levels-IsBook s (without s p (slot_of p e.price) left) b b0 b2 v is_side refl refl t
          refl refl in
      let (b', eq, a) = reply-Answer now_ns true b2 v2.bids.marked v2.asks.marked in
      (
        b',
        cancel-unlinked w index q ∙ eq,
        Announced-IsBook b2 b' v2 a,
        record {
          levels = ap (λ (r : PriceLevels). r.levels) (Announced-levels s b2 b' a ∙ mine) ∙ same;
          falls =
              rw (Announced-levels s b2 b' a ∙ mine, same)
                (eq_of_parts _ _ (
                  omega (
                    arith,
                    +ℤ_parts,
                    -ℤ_parts,
                    Same-of_eq _ _ (total-erase w.level o),
                    Same-of_eq _ _ (
                        sum_ℤ-set (λ (l : LevelFifo). l.total_qty) p.levels (slot_of p e.price)
                          w.level left here),
                  )));
          other = Announced-levels (opposite s) b2 b' a ∙ other;
          band = ap (λ (r : PriceLevels). r.band) (Announced-levels s b2 b' a ∙ mine) ∙ band;
          recedes = subst (λ z. Recedes s p z) (sym (Announced-levels s b2 b' a ∙ mine)) recedes;
          freed = a.order_pool ∙ unlinked-pool left;
        },
        Announced-levels s b2 b' a ∙ mine,
      )

  -- On a well-formed book, cancelling the only order of a level that is not the best one, while
  -- orders rest at the best price, loses the best price: the level at the old best price still
  -- holds its orders, and the book's best price is afterwards a worse one.
  pub cancel_hides_best :
      (w : IsLive id b e o)
      → IsBook b
      → is_empty (rest_of w) ≡ true
      → has_level (levels_of e.side b) (best_of e.side (levels_of e.side b)) ≡ true
      → e.price ≢ best_of e.side (levels_of e.side b)
      → (b' : OrderBook) × (cancel now_ns id b ≡ some (true, b'))
        × (has_level (levels_of e.side b') (best_of e.side (levels_of e.side b)) ≡ true)
        × Better e.side (best_of e.side (levels_of e.side b)) (best_of e.side (levels_of e.side b'))
  cancel_hides_best w v out held behind =
      let s = e.side in
      let p = levels_of s b in
      let (good, here) = get_level-slot p e.price w.level w.at in
      let side = IsBook-side s b v in
      let arr = IsArray-filled p (slot_of p e.price) (rest_of w) side.array (
        erase-IsLevel w.level e.node o (side.array.queues (slot_of p e.price) w.level here)
          w.node) in
      let (b', eq, book, erased, levels) = cancel_lem w v in
      let q : levels_of s b' ≡ refresh_levels s (filled p (slot_of p e.price) (rest_of w)) =
        levels ∙ rw out refl in
      let (still, worse) = hidden s p e.price (rest_of w) side.array arr good held behind in
      (b', eq, rw q still, rw q worse)
