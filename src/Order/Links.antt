-- ===== src/Order/Links.antt =====
-- include/hyperliquid/order.h: `LevelFIFO` with its links. The nodes stand in a store; a pointer is
-- an address, or `none` for nullptr. `none` as a result is an access through a pointer to no node.
pub mod Chains
pub mod Refinement
pub mod Reducing
use hyperliquid_matching_eng.Base.{Option, none, some, ◌==◌, if◌then◌else◌, ◌>>=◌}
use hyperliquid_matching_eng.Base.Int.{◌+ℤ◌, ◌-ℤ◌}
use hyperliquid_matching_eng.Types.{Quantity}
use hyperliquid_matching_eng.Order.{Addr, Order}

abbrev pub Ptr : Type 0
Ptr = Option Addr

-- An `OrderNode`: what it holds of the order, and its links.
pub record Node : Type 0 where
  pub order : Order
  pub prev : Ptr
  pub next : Ptr

abbrev pub Store : Type 0
Store = Addr → Option Node

unfoldable pub write : Store → Addr → Node → Store
write h a n x = if a == x then some n else h x

pub record LinkedFifo : Type 0 where
  pub head : Ptr
  pub tail : Ptr
  pub total_qty : Quantity

-- `if (p) p->next = q;` and `if (p) p->prev = q;`
unfoldable pub link_next : Ptr → Ptr → Store → Option Store
link_next none q h = some h
link_next (some a) q h = do n ← h a; some (write h a (record n { next = q }))

unfoldable pub link_prev : Ptr → Ptr → Store → Option Store
link_prev none q h = some h
link_prev (some a) q h = do n ← h a; some (write h a (record n { prev = q }))

-- `if (p) ...; else m = q;` for the member `m`.
abbrev pub or_else : Ptr → Ptr → Ptr → Ptr
or_else none q m = q
or_else (some a) q m = m

unfoldable pub enqueue : LinkedFifo → Addr → Store → Option (LinkedFifo × Store)
unfolding link_next
enqueue l node h = do
  n ← h node
  let placed = write h node (record n { next = none; prev = l.tail })
  linked ← link_next l.tail (some node) placed
  m ← linked node
  some (
    record {
      head = or_else l.tail (some node) l.head;
      tail = some node;
      total_qty = l.total_qty +ℤ m.order.qty;
    },
    linked,
  )

unfoldable pub erase : LinkedFifo → Addr → Store → Option (LinkedFifo × Store)
unfolding link_next link_prev
erase l node h = do
  n ← h node
  forward ← link_next n.prev n.next h
  m ← forward node
  backward ← link_prev m.next m.prev forward
  k ← backward node
  some (
    record {
      head = or_else n.prev n.next l.head;
      tail = or_else m.next m.prev l.tail;
      total_qty = l.total_qty -ℤ k.order.qty;
    },
    write backward node (record k { prev = none; next = none }),
  )

unfoldable pub reduce_qty : LinkedFifo → Addr → Quantity → Store → Option (LinkedFifo × Store)
reduce_qty l node reduction h = do
  n ← h node
  let left = n.order.qty -ℤ reduction
  some (
    record l { total_qty = l.total_qty -ℤ reduction },
    write h node (record n { order = record (n.order) { qty = left } }),
  )
