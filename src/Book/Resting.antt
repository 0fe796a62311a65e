-- ===== src/Book/Resting.antt =====
-- A limit order that comes to rest (include/hyperliquid/order_book.h).
use hyperliquid_matching_eng.Base.{◌<◌, ◌≡◌, ◌≢◌, refl, true, some, if◌then◌else◌, set}
use hyperliquid_matching_eng.Base.Int.{◌<ℤ◌, 0ℤ}
use hyperliquid_matching_eng.Types.{Tick, Quantity, Side, bid, ask}
use hyperliquid_matching_eng.Command.{OrderCommand}
use hyperliquid_matching_eng.Order.{Addr, Order, LevelFifo, enqueue}
use hyperliquid_matching_eng.Order.Laws.{Apart, IsLevel}
use hyperliquid_matching_eng.Order.Enqueue.{enqueue-IsLevel, enqueue-not_empty}
use hyperliquid_matching_eng.PriceLevels.{PriceLevels, get_level, is_valid_price}
use hyperliquid_matching_eng.SlabPool
use hyperliquid_matching_eng.SlabPool.{SlabPool}
use hyperliquid_matching_eng.SlabPool.Allocating.{IsFreeNode, alloc-total}
use hyperliquid_matching_eng.FlatMap
use hyperliquid_matching_eng.FlatMap.Counting.{IsTable}
use hyperliquid_matching_eng.FlatMap.Inserting.{insert-IsTable}
use hyperliquid_matching_eng.Book.State.{
  OrderBook, OrderEntry, levels_of, with_levels, best_of, opposite,
}
use hyperliquid_matching_eng.Book.Submit.{improves, resting, rest_in_book}
use hyperliquid_matching_eng.Book.Sides.{IsSide}
use hyperliquid_matching_eng.Book.Erasing.{put_level-filled, slot_of}
use hyperliquid_matching_eng.Book.Joining.{
  joined, joined-IsSide, get_level-valid, get_level-joined, levels-joined, best-joined,
}
use hyperliquid_matching_eng.Book.Takers.{IsBook, IsBook-side}

-- What an order that comes to rest does: it joins the end of the queue at its price with a node
-- that no other order of that queue has, the other queues and the other side stay, the best price
-- is the better one, and the index knows where the order is.
pub record Rested (s : Side) (cmd : OrderCommand) (remaining : Quantity) (b b' : OrderBook)
    : Type 0 where
  pub level : LevelFifo
  pub node : Addr
  pub allocated : SlabPool.alloc b.order_pool ≡ some (node, b'.order_pool)
  pub was : get_level (levels_of s b) cmd.price_ticks ≡ some level
  pub apart : Apart node level.orders
  pub joins :
      get_level (levels_of s b') cmd.price_ticks ≡ some (enqueue level (resting cmd remaining node))
  pub levels :
      (levels_of s b').levels
      ≡ set
          (levels_of s b).levels
          (slot_of (levels_of s b) cmd.price_ticks)
          (enqueue level (resting cmd remaining node))
  pub band : (levels_of s b').band ≡ (levels_of s b).band
  pub best : best_of s (levels_of s b') ≡ (
      if improves s cmd.price_ticks (best_of s (levels_of s b))
      then cmd.price_ticks
      else best_of s (levels_of s b))
  pub other : levels_of (opposite s) b' ≡ levels_of (opposite s) b
  pub known :
      FlatMap.find b'.id_index cmd.order_id
      ≡ some (record { side = s; price = cmd.price_ticks; node = node })
  pub events : b'.events ≡ b.events

-- No order that rests at the price has a node that the pool may hand out.
abbrev pub IsApart : OrderBook → Side → Tick → Type 0
IsApart b s px =
    (l : LevelFifo) (a : Addr)
    → get_level (levels_of s b) px ≡ some l
    → IsFreeNode b.order_pool a
    → Apart a l.orders

-- The book with one side, the pool and the index replaced.
abbrev pub rewritten :
    Side → PriceLevels → SlabPool → FlatMap.FlatMap OrderEntry → OrderBook → OrderBook
rewritten s p pool table b = with_levels s p (record b { order_pool = pool; id_index = table })

pub record Rewritten (s : Side) (p : PriceLevels) (pool : SlabPool)
    (table : FlatMap.FlatMap OrderEntry) (b c : OrderBook) : Type 0 where
  pub same : levels_of s c ≡ p
  pub other : levels_of (opposite s) c ≡ levels_of (opposite s) b
  pub id_index : c.id_index ≡ table
  pub order_pool : c.order_pool ≡ pool
  pub events : c.events ≡ b.events

pub rewritten-Rewritten :
    (s : Side) (p : PriceLevels) (pool : SlabPool) (table : FlatMap.FlatMap OrderEntry)
    (b : OrderBook)
    → Rewritten s p pool table b (rewritten s p pool table b)
rewritten-Rewritten bid p pool table b = record {
  same = refl;
  other = refl;
  id_index = refl;
  order_pool = refl;
  events = refl;
}
rewritten-Rewritten ask p pool table b = record {
  same = refl;
  other = refl;
  id_index = refl;
  order_pool = refl;
  events = refl;
}

pub joined-IsBook :
    (s : Side) (p : PriceLevels) (pool : SlabPool) (table : FlatMap.FlatMap OrderEntry)
    (b : OrderBook)
    → IsBook b
    → IsSide s p
    → IsTable table
    → IsBook (rewritten s p pool table b)
joined-IsBook bid p pool table b v side w = record { bids = side; asks = v.asks; table = w }
joined-IsBook ask p pool table b v side w = record { bids = v.bids; asks = side; table = w }

-- On a well-formed book, an order with something left always comes to rest at a price of the band
-- where no order has a node of the pool.
pub rest_in_book-Rested :
    (s : Side) (cmd : OrderCommand) (remaining : Quantity) (b : OrderBook)
    → IsBook b
    → is_valid_price (levels_of s b) cmd.price_ticks ≡ true
    → IsApart b s cmd.price_ticks
    → 0 < b.order_pool.slab_objects
    → cmd.order_id ≢ FlatMap.empty_key
    → 0ℤ <ℤ remaining
    → (b' : OrderBook) × (rest_in_book s cmd remaining b ≡ some b')
      × IsBook b'
      × Rested s cmd remaining b b'
unfolding rest_in_book
rest_in_book-Rested s cmd remaining b v good apart slots id more =
    let p = levels_of s b in
    let px = cmd.price_ticks in
    let side = IsBook-side s b v in
    let (l, at, queue) = get_level-valid p px side.array good in
    let (node, pool, ha, free) = alloc-total b.order_pool slots in
    let o : Order = resting cmd remaining node in
    let entry : OrderEntry = record { side = s; price = px; node = node } in
    let (table, hi, w, known) = insert-IsTable b.id_index cmd.order_id entry id v.table in
    let queue' : IsLevel (enqueue l o) = enqueue-IsLevel l o queue (apart l node at free) more in
    let side' = joined-IsSide s p px l (enqueue l o) side at queue' (enqueue-not_empty l o) in
    let put = put_level-filled p px (enqueue l o) good in
    let q = joined s p px (enqueue l o) in
    let r = rewritten-Rewritten s q pool table b in
    (
      rewritten s q pool table b,
      rw (at, ha, put, hi) refl,
      joined-IsBook s q pool table b v side' w,
      record {
        level = l;
        node = node;
        allocated = rw (r.order_pool) ha;
        was = at;
        joins = rw (r.same) (get_level-joined s p px l (enqueue l o) at);
        apart = apart l node at free;
        levels = rw (r.same) ((levels-joined s p px (enqueue l o)).0);
        band = rw (r.same) ((levels-joined s p px (enqueue l o)).1);
        best = rw (r.same) (best-joined s p px (enqueue l o));
        other = r.other;
        known = rw (r.id_index) known;
        events = r.events;
      },
    )
