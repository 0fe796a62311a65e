-- ===== src/Order.antt =====
-- include/hyperliquid/order.h: `LevelFIFO`, the first-in first-out queue of the orders that rest
-- at one price. Here a queue is the list of its orders, oldest first, in place of the links between
-- the nodes. `addr` is the address of the order's node, which stands for the pointer to it.
pub mod Laws
pub mod Enqueue
pub mod Copies
pub mod Resizing
pub mod Links
use Prim.Native.Nat.{bit_and}
use hyperliquid_matching_eng.Base.{
  ℕ, Bool, true, false, not, ◌&&◌, List, [], ◌∷◌, ◌++◌, Option, none, some, ◌==◌, if◌then◌else◌,
}
use hyperliquid_matching_eng.Base.Int.{ℤ, pos, ltb_ℤ, min_ℤ, ◌+ℤ◌, ◌-ℤ◌, sum_ℤ}
use hyperliquid_matching_eng.Types.{OrderId, UserId, Quantity, Timestamp, Tick, iceberg_flag}

abbrev pub Addr : Type 0
Addr = ℕ

-- What a queued `OrderNode` holds of the order.
pub record Order : Type 0 where
  pub addr : Addr
  pub id : OrderId
  pub user : UserId
  pub qty : Quantity
  pub ts : Timestamp
  pub flags : ℕ

pub record LevelFifo : Type 0 where
  pub orders : List Order
  pub total_qty : Quantity

abbrev pub empty_level : LevelFifo
empty_level = record { orders = []; total_qty = ℤ.pos 0 }

abbrev pub is_nil {ℓ} : {A : Type ℓ} → List A → Bool
is_nil [] = true
is_nil (x ∷ xs) = false

-- head == nullptr
abbrev pub is_empty : LevelFifo → Bool
is_empty l = is_nil l.orders

-- Reading through a pointer to a node of the queue.
unfoldable pub deref : Addr → List Order → Option Order
deref a [] = none
deref a (o ∷ os) = if o.addr == a then some o else deref a os

unfoldable pub remove : Addr → List Order → List Order
remove a [] = []
remove a (o ∷ os) = if o.addr == a then os else o ∷ remove a os

unfoldable pub set_qty : Addr → Quantity → List Order → List Order
set_qty a q [] = []
set_qty a q (o ∷ os) = if o.addr == a then record o { qty = q } ∷ os else o ∷ set_qty a q os

unfoldable pub enqueue : LevelFifo → Order → LevelFifo
enqueue l node = record { orders = l.orders ++ node ∷ []; total_qty = l.total_qty +ℤ node.qty }

unfoldable pub erase : LevelFifo → Order → LevelFifo
unfolding remove
erase l node = record { orders = remove node.addr l.orders; total_qty = l.total_qty -ℤ node.qty }

unfoldable pub reduce_qty : LevelFifo → Order → Quantity → LevelFifo
unfolding set_qty
reduce_qty l node reduction = record {
  orders = set_qty node.addr (node.qty -ℤ reduction) l.orders;
  total_qty = l.total_qty -ℤ reduction;
}

-- The quantity that rests in a queue.
abbrev pub open_qty : List Order → Quantity
open_qty = sum_ℤ λ o. o.qty

-- The whole of an `OrderNode`, but for its links and the kind of its memory.
pub record OrderNode : Type 0 where
  pub id : OrderId
  pub user : UserId
  pub qty : Quantity
  pub ts : Timestamp
  pub flags : ℕ
  pub display_qty : Quantity
  pub hidden_qty : Quantity
  pub expiry_ts : Timestamp
  pub stop_price : Tick

unfoldable pub is_iceberg : OrderNode → Bool
is_iceberg n = not (bit_and n.flags iceberg_flag == 0)

-- What is left hidden shows again, up to the visible quantity.
unfoldable pub replenish : OrderNode → Quantity × OrderNode
replenish n =
    if ltb_ℤ (pos 0) n.hidden_qty && ltb_ℤ (pos 0) n.display_qty
    then (
      min_ℤ n.hidden_qty n.display_qty,
      record n {
        qty = min_ℤ n.hidden_qty n.display_qty;
        hidden_qty = n.hidden_qty -ℤ min_ℤ n.hidden_qty n.display_qty;
      },
    )
    else (pos 0, n)
