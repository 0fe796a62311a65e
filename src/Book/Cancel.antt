-- ===== src/Book/Cancel.antt =====
-- include/hyperliquid/order_book.h: `cancel` and `modify`.
use hyperliquid_matching_eng.Base.{
  ℕ, ◌+◌, Bool, true, false, ◌&&◌, Option, none, some, ◌==◌, if◌then◌else◌, ◌>>=◌,
}
use hyperliquid_matching_eng.Base.Int.{◌-ℤ◌, ltb_ℤ, 0ℤ}
use hyperliquid_matching_eng.Types.{OrderId, Tick, Quantity, Timestamp, tick, limit, gtc, new_order}
use hyperliquid_matching_eng.Command.{OrderCommand, ExecResult, exec_result}
use hyperliquid_matching_eng.Order.{Order, deref, erase, reduce_qty, is_empty}
use hyperliquid_matching_eng.PriceLevels.{get_level, put_level}
use hyperliquid_matching_eng.SlabPool
use hyperliquid_matching_eng.FlatMap
use hyperliquid_matching_eng.Book.State.{
  OrderEntry, OrderBook, levels_of, with_levels, refresh_best_after_depletion,
}
use hyperliquid_matching_eng.Book.Submit.{reply, submit_limit}

-- Erase the entry's node from its level, and give the node back to the pool.
unfoldable pub unlink : OrderEntry → OrderBook → Option OrderBook
unlink entry b = do
  level ← get_level (levels_of entry.side b) entry.price
  node ← deref entry.node level.orders
  let left = erase level node
  levels ← put_level (levels_of entry.side b) entry.price left
  let freed =
      with_levels entry.side levels
        (record b { order_pool = SlabPool.free b.order_pool entry.node })
  some (if is_empty left then refresh_best_after_depletion entry.side freed else freed)

module _ (now_ns : ℕ → Timestamp) where
  unfoldable pub cancel : OrderId → OrderBook → Option (Bool × OrderBook)
  cancel id b = elim (FlatMap.find b.id_index id) [
    | none ↦ some (false, b)
    | some entry ↦ do
      b' ← unlink entry b
      id_index ← FlatMap.erase b'.id_index id
      reply now_ns true (record b' { id_index = id_index })
  ]

  -- Case 1 of `modify`: the order keeps its place and loses quantity.
  unfoldable pub resize_in_place :
      OrderEntry → Order → Quantity → OrderBook → Option (ExecResult × OrderBook)
  resize_in_place entry node new_qty b = do
    level ← get_level (levels_of entry.side b) entry.price
    levels ←
        put_level (levels_of entry.side b) entry.price (reduce_qty level node (node.qty -ℤ new_qty))
    reply now_ns (exec_result 0ℤ new_qty) (with_levels entry.side levels b)

  -- The members that `OrderCommand new_cmd` does not set are not read by `submit_limit`.
  abbrev pub replacement : OrderId → OrderEntry → Order → Tick → Quantity → Timestamp → OrderCommand
  replacement id entry node new_price new_qty now = record {
    type = new_order;
    recv_ts = now;
    order_id = id;
    symbol_id = 0;
    user_id = node.user;
    price_ticks = new_price;
    qty = new_qty;
    side = entry.side;
    order_type = limit;
    tif = gtc;
    flags = node.flags;
    stop_price = tick 0;
    display_qty = 0ℤ;
    expiry_ts = 0;
  }

  -- Case 2: cancel, and submit anew under the same id.
  unfoldable pub replace :
      OrderId → OrderEntry → Order → Tick → Quantity → OrderBook → Option (ExecResult × OrderBook)
  replace id entry node new_price new_qty b = do
    let now = now_ns b.clock_reads
    (found, b') ← cancel id (record b { clock_reads = b.clock_reads + 1 })
    if found
        then submit_limit now_ns (replacement id entry node new_price new_qty now) b'
        else some (exec_result 0ℤ 0ℤ, b')

  unfoldable pub modify : OrderId → Tick → Quantity → OrderBook → Option (ExecResult × OrderBook)
  modify id new_price new_qty b = elim (FlatMap.find b.id_index id) [
    | none ↦ some (exec_result 0ℤ 0ℤ, b)
    | some entry ↦ do
      level ← get_level (levels_of entry.side b) entry.price
      node ← deref entry.node level.orders
      if (new_price == entry.price) && ltb_ℤ new_qty node.qty
          then resize_in_place entry node new_qty b
          else replace id entry node new_price new_qty b
  ]
