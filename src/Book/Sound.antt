-- ===== src/Book/Sound.antt =====
-- The invariant of the whole book of include/hyperliquid/order_book.h: its sides and its index are
-- well formed, and every node of its pool is free or holds one order that rests, never both.
use hyperliquid_matching_eng.Base.{ℕ, ◌+◌, ◌<◌, ◌≡◌, arith, inl, inr, sym, subst, List, ◌∷◌}
use hyperliquid_matching_eng.Types.{Tick, Quantity, Side, bid, ask}
use hyperliquid_matching_eng.Order.{Addr}
use hyperliquid_matching_eng.Order.Copies.{count, copies-le-held, Apart-of_copies}
use hyperliquid_matching_eng.SlabPool.{SlabPool}
use hyperliquid_matching_eng.SlabPool.Sharing.{IsShared, IsMoved-IsShared}
use hyperliquid_matching_eng.PriceLevels.{PriceLevels}
use hyperliquid_matching_eng.Book.State.{OrderBook, levels_of, opposite}
use hyperliquid_matching_eng.Book.Matched.{Matched, nodes_in}
use hyperliquid_matching_eng.Book.Erasing.{get_level-slot}
use hyperliquid_matching_eng.Book.Takers.{IsBook, Announced}
use hyperliquid_matching_eng.Book.Cancels.{Announced-IsBook}
use hyperliquid_matching_eng.Book.Resting.{IsApart}

-- How many orders of the book stand at an address: those of one side, and those of the other.
abbrev pub nodes_from : Side → OrderBook → Addr → ℕ
nodes_from s b a = nodes_in (levels_of s b) a + nodes_in (levels_of (opposite s) b) a

pub record IsSound (b : OrderBook) : Type 0 where
  pub book : IsBook b
  pub shared : IsShared b.order_pool (nodes_from bid b)

IsShared-swap :
    (p : SlabPool) (u w : Addr → ℕ) → IsShared p (λ a. u a + w a) → IsShared p (λ a. w a + u a)
IsShared-swap p u w v = record {
  once = λ a. omega (arith, v.once a);
  within = λ a h. omega (arith, v.within a h);
  slots = v.slots;
}

-- The same from either side.
pub IsShared-from : (s : Side) (b : OrderBook) → IsSound b → IsShared b.order_pool (nodes_from s b)
IsShared-from bid b v = v.shared
IsShared-from ask b v = IsShared-swap b.order_pool (nodes_in b.bids) (nodes_in b.asks) v.shared

pub sound_from :
    (s : Side) (b : OrderBook) → IsBook b → IsShared b.order_pool (nodes_from s b) → IsSound b
sound_from bid b v w = record { book = v; shared = w }
sound_from ask b v w = record {
  book = v;
  shared = IsShared-swap b.order_pool (nodes_in b.asks) (nodes_in b.bids) w;
}

pub Announced-IsSound : (b b' : OrderBook) → IsSound b → Announced b b' → IsSound b'
Announced-IsSound b b' v a = record {
  book = Announced-IsBook b b' v.book a;
  shared = rw (a.bids, a.asks, a.order_pool) (v.shared);
}

Matched-IsBook :
    (s : Side) (l : Tick) (q t : Quantity) (b b' : OrderBook)
    → IsBook b
    → Matched s l q b t b'
    → IsBook b'
Matched-IsBook bid l q t b b' v m = record {
  bids = m.side;
  asks = rw (m.other) (v.asks);
  table = m.table;
}
Matched-IsBook ask l q t b b' v m = record {
  bids = rw (m.other) (v.bids);
  asks = m.side;
  table = m.table;
}

-- Matching keeps the invariant.
pub Matched-IsSound :
    (s : Side) (l : Tick) (q t : Quantity) (b b' : OrderBook)
    → IsSound b
    → Matched s l q b t b'
    → IsSound b'
Matched-IsSound s l q t b b' v m = sound_from s b' (Matched-IsBook s l q t b b' v.book m) (
    subst
      (λ (p : PriceLevels).
        IsShared b'.order_pool (λ a. nodes_in (levels_of s b') a + nodes_in p a))
      (sym m.other)
      (IsMoved-IsShared b.order_pool b'.order_pool (nodes_in (levels_of s b))
        (nodes_in (levels_of s b')) (nodes_in (levels_of (opposite s) b)) m.nodes
        (IsShared-from s b v)))

count-first : (a : Addr) (nodes rest : List Addr) → nodes ≡ a ∷ rest → 0 < count a nodes
unfolding count
count-first a nodes rest e = rw e (ground arith)

-- In a sound book, a node that the pool may hand out holds no order that rests.
pub IsApart-of_IsSound : (s : Side) (px : Tick) (b : OrderBook) → IsSound b → IsApart b s px
IsApart-of_IsSound s px b v l a at free =
    let w = IsShared-from s b v in
    let (good, here) = get_level-slot (levels_of s b) px l at in
    let none_held : nodes_in (levels_of s b) a ≡ 0 = elim free [
      | inl first ↦ omega (arith, w.once a, count-first a b.order_pool.free_list first.0 first.1)
      | inr past ↦ omega (arith, w.within a past)
    ] in
    Apart-of_copies a l.orders (copies-le-held a (levels_of s b).levels _ l here none_held)
