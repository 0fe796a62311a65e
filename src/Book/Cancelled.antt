-- ===== src/Book/Cancelled.antt =====
-- `cancel` of include/hyperliquid/order_book.h on a book that is sound as a whole.
use hyperliquid_matching_eng.Base.{ℕ, ◌+◌, ◌≡◌, true, arith, some, sym, subst, ◌++◌}
use hyperliquid_matching_eng.Types.{OrderId, Timestamp}
use hyperliquid_matching_eng.Order.{Addr, Order, erase, remove}
use hyperliquid_matching_eng.Order.Laws.{Apart, remove-append, deref-split}
use hyperliquid_matching_eng.Order.Copies.{one, copies, copies-without, held-set}
use hyperliquid_matching_eng.SlabPool.Sharing.{IsShared, free-IsShared}
use hyperliquid_matching_eng.Book.State.{OrderBook, OrderEntry, levels_of}
use hyperliquid_matching_eng.Book.Cancel.{cancel}
use hyperliquid_matching_eng.Book.Erasing.{get_level-slot, slot_of}
use hyperliquid_matching_eng.Book.Takers.{IsBook}
use hyperliquid_matching_eng.Book.Cancels.{IsLive, cancel_lem, Erased, rest_of}
use hyperliquid_matching_eng.Book.Sound.{IsSound, nodes_from, IsShared-from, sound_from}

-- The erased order's node is the one that its level no longer holds.
copies-erase :
    (id : OrderId) (e : OrderEntry) (o : Order) (b : OrderBook) (w : IsLive id b e o) (a : Addr)
    → one a e.node + copies a (rest_of w).orders ≡ copies a w.level.orders
unfolding erase
copies-erase id e o b w a =
    let (xs, ys, eq, at, apart) = deref-split e.node w.level.orders o w.node in
    let left : remove o.addr w.level.orders ≡ xs ++ ys =
      rw eq (remove-append o xs ys (subst (λ k. Apart k xs) (sym at) apart)) in
    rw (left, eq, sym at) (copies-without a xs ys o)

pub Erased-IsSound :
    (id : OrderId) (e : OrderEntry) (o : Order) (b b' : OrderBook) (w : IsLive id b e o)
    → IsSound b
    → IsBook b'
    → Erased e o (rest_of w) b b'
    → IsSound b'
Erased-IsSound id e o b b' w v k r =
    let s = e.side in
    let p = levels_of s b in
    let here = (get_level-slot p e.price w.level w.at).1 in
    let less : (a : Addr) → nodes_from s b a ≡ one a e.node + nodes_from s b' a = λ a.
      rw (r.levels, r.other)
        (omega (
          arith,
          copies-erase id e o b w a,
          held-set a p.levels (slot_of p e.price) w.level (rest_of w) here,
        )) in
    sound_from s b' k (
      subst (λ q. IsShared q (nodes_from s b')) (sym r.freed)
        (free-IsShared b.order_pool (nodes_from s b) (nodes_from s b') e.node (IsShared-from s b v)
          less))

-- On a sound book, cancelling an order that the index leads to returns true and leaves a sound book.
pub cancel-IsSound :
    (now_ns : ℕ → Timestamp) (id : OrderId) (b : OrderBook) (e : OrderEntry) (o : Order)
    → (w : IsLive id b e o) → IsSound b
    → (b' : OrderBook) × (cancel now_ns id b ≡ some (true, b'))
      × IsSound b'
      × Erased e o (rest_of w) b b'
cancel-IsSound now_ns id b e o w v =
    let (b', eq, k, r, l) = cancel_lem now_ns id b e o w v.book in
    (b', eq, Erased-IsSound id e o b b' w v k r, r)
