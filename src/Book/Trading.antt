-- ===== src/Book/Trading.antt =====
-- One trade with a maker in include/hyperliquid/order_book.h: the maker's queue, its node and the index.
use mathlib.Core.List.{append-nil}
use hyperliquid_matching_eng.Base.{
  ℕ, ap, ◌≡◌, ◌≢◌, refl, List, [], ◌∷◌, ◌++◌, some, arith, Bool-cases, inl, inr, sym,
}
use hyperliquid_matching_eng.Base.Int.{
  ℤ, ◌+ℤ◌, ◌-ℤ◌, leb_ℤ, min_ℤ, +ℤ_parts, -ℤ_parts, eq_of_parts, min_parts, le-of_leb_ℤ,
}
use hyperliquid_matching_eng.Order.{Addr, Order, LevelFifo, erase, reduce_qty}
use hyperliquid_matching_eng.Order.Copies.{one, count, copies, copies-without, IsMoved}
use hyperliquid_matching_eng.Order.Laws.{Apart, Distinct, remove-append, set_qty-append}
use hyperliquid_matching_eng.FlatMap.Counting.{IsTable}
use hyperliquid_matching_eng.FlatMap.Probing.{erase-IsTable}
use hyperliquid_matching_eng.SlabPool
use hyperliquid_matching_eng.Book.Matching.{Taker, Fill, trade_with}
use hyperliquid_matching_eng.Book.Consume.{Consumed, keep_rest, report}

-- How many orders of a queue stand at an address.
abbrev pub nodes_of : LevelFifo → Addr → ℕ
nodes_of l a = copies a l.orders

-- What the loop has done, started with `kept` behind it, when `r` is the reference's result.
pub record IsFilled (f : Fill) (kept : List Order) (r : Consumed) (g : Fill) : Type 0 where
  pub orders : g.level.orders ≡ kept ++ r.left
  pub total : g.level.total_qty +ℤ r.traded ≡ f.level.total_qty
  pub events : g.events ≡ f.events ++ r.trades
  pub qty : g.qty ≡ r.rest
  pub filled : g.total_filled ≡ f.total_filled +ℤ r.traded
  pub table : IsTable g.id_index
  pub nodes : IsMoved f.order_pool g.order_pool (nodes_of f.level) (nodes_of g.level)

Distinct-Apart : (xs ys : List Order) (o : Order) → Distinct (xs ++ o ∷ ys) → Apart o.addr xs
Distinct-Apart [] ys o h = tt
Distinct-Apart (x ∷ xs) ys o h = (λ e. apart x.addr xs h.0 (sym e), Distinct-Apart xs ys o h.1)
  where
    apart : (a : Addr) (zs : List Order) → Apart a (zs ++ o ∷ ys) → o.addr ≢ a
    apart a [] p = p.0
    apart a (z ∷ zs) p = apart a zs p.1

pub Distinct-keep_rest :
    (xs ys : List Order) (o : Order) (m : ℤ)
    → Distinct (xs ++ o ∷ ys)
    → Distinct (xs ++ keep_rest o m ys)
Distinct-keep_rest [] ys o m h = ground arith
Distinct-keep_rest (x ∷ xs) ys o m h = (apart xs h.0, Distinct-keep_rest xs ys o m h.1)
  where
    apart : (zs : List Order) → Apart x.addr (zs ++ o ∷ ys) → Apart x.addr (zs ++ keep_rest o m ys)
    apart [] p = ground arith
    apart (z ∷ zs) p = (p.0, apart zs p.1)

-- The node of a maker that has gone is back in the pool.
gone-IsMoved :
    (f : Fill) (o : Order) (kept ms : List Order) (l : LevelFifo)
    → f.level.orders ≡ kept ++ o ∷ ms
    → l.orders ≡ kept ++ ms
    → IsMoved f.order_pool (SlabPool.free f.order_pool o.addr) (nodes_of f.level) (nodes_of l)
unfolding SlabPool.free count
gone-IsMoved f o kept ms l e e' = record {
  slab_objects = refl;
  num_slabs = refl;
  balance = λ a. rw (e, e') (omega (arith, copies-without a kept ms o));
}

-- A maker that keeps some of its quantity keeps its node.
stays-IsMoved :
    (f : Fill) (o o' : Order) (kept ms : List Order) (l : LevelFifo)
    → f.level.orders ≡ kept ++ o ∷ ms
    → l.orders ≡ kept ++ o' ∷ ms
    → o'.addr ≡ o.addr
    → IsMoved f.order_pool f.order_pool (nodes_of f.level) (nodes_of l)
stays-IsMoved f o o' kept ms l e e' same = record {
  slab_objects = refl;
  num_slabs = refl;
  balance = λ a.
      rw (e, e')
        (omega
          (arith, copies-without a kept ms o, copies-without a kept ms o', ap (λ b. one a b) same));
}

-- One trade takes the maker out of the list, or leaves it with the rest of its quantity.
pub trade_with-IsFilled :
    (t : Taker) (o : Order) (kept ms : List Order) (f : Fill)
    → f.level.orders ≡ kept ++ o ∷ ms
    → Distinct (kept ++ o ∷ ms)
    → IsTable f.id_index
    → (g : Fill) × (trade_with t o f ≡ some g)
      × IsFilled f kept
          (record {
            left = keep_rest o (min_ℤ f.qty o.qty) ms;
            trades = report t o (min_ℤ f.qty o.qty);
            rest = f.qty -ℤ min_ℤ f.qty o.qty;
            traded = min_ℤ f.qty o.qty;
          })
          g
unfolding trade_with erase reduce_qty
trade_with-IsFilled t o kept ms f e d w =
    let m = min_ℤ f.qty o.qty in
    let apart = Distinct-Apart kept ms o d in
    let (index, eq, w') = erase-IsTable f.id_index o.id w in
    let traded = record f {
      events = f.events ++ report t o m;
      qty = f.qty -ℤ m;
      total_filled = f.total_filled +ℤ m;
    } in
    elim (Bool-cases (leb_ℤ o.qty m)) [
      | inl all ↦ (
        record traded {
          level = erase f.level o;
          id_index = index;
          order_pool = SlabPool.free f.order_pool o.addr;
        },
        ground (arith, append-nil f.events),
        record {
          orders = rw (e, all) (remove-append o kept ms apart);
          total =
              eq_of_parts _ _
                (omega (arith, +ℤ_parts, -ℤ_parts, min_parts f.qty o.qty, le-of_leb_ℤ o.qty m all));
          events = refl;
          qty = refl;
          filled = refl;
          table = w';
          nodes =
              gone-IsMoved f o kept ms (erase f.level o) e (rw e (remove-append o kept ms apart));
        },
      )
      | inr part ↦ (
        record traded { level = reduce_qty f.level o m },
        ground (arith, append-nil f.events),
        record {
          orders = rw (e, part) (set_qty-append o (o.qty -ℤ m) kept ms apart);
          total = eq_of_parts _ _ (omega (arith, +ℤ_parts, -ℤ_parts));
          events = refl;
          qty = refl;
          filled = refl;
          table = w;
          nodes =
              stays-IsMoved f o (record o { qty = o.qty -ℤ m }) kept ms (reduce_qty f.level o m) e
                (rw e (set_qty-append o (o.qty -ℤ m) kept ms apart)) refl;
        },
      )
    ]
