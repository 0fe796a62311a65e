-- ===== src/Book/Modifies.antt =====
-- `modify` of include/hyperliquid/order_book.h on a book that is sound as a whole.
use hyperliquid_matching_eng.Base.{
  Option, ℕ, ◌+◌, ◌≡◌, ◌≢◌, refl, true, false, arith, ◌⊎◌, some, ◌∙◌, ap, ◌&&◌, ◌==◌, inl, inr,
  Bool-cases,
}
use hyperliquid_matching_eng.Base.Int.{
  ℤ, ◌+ℤ◌, ◌-ℤ◌, ◌<ℤ◌, ◌≤ℤ◌, ltb_ℤ, 0ℤ, +ℤ_parts, -ℤ_parts, eq_of_parts,
}
use hyperliquid_matching_eng.Types.{OrderId, Tick, Quantity, Timestamp, Side, bid, ask}
use hyperliquid_matching_eng.Command.{ExecResult, exec_result}
use hyperliquid_matching_eng.Order.{Order, LevelFifo}
use hyperliquid_matching_eng.PriceLevels.{PriceLevels, is_valid_price}
use hyperliquid_matching_eng.FlatMap
use hyperliquid_matching_eng.Book.State.{OrderBook, OrderEntry, levels_of, opposite}
use hyperliquid_matching_eng.Book.Cancel.{cancel, modify, replace, replacement}
use hyperliquid_matching_eng.Book.Cancels.{IsLive, Erased, rest_of}
use hyperliquid_matching_eng.Book.Cancelled.{cancel-IsSound}
use hyperliquid_matching_eng.Book.Limits.{Settled, submit_limit_lem}
use hyperliquid_matching_eng.Book.Matched.{Matched}
use hyperliquid_matching_eng.Book.Filling.{IsStopped}
use hyperliquid_matching_eng.Book.Takers.{Announced}
use hyperliquid_matching_eng.Book.Submit.{incoming}
use hyperliquid_matching_eng.Book.InPlace.{Resized, resize_in_place_lem, modify-live}
use hyperliquid_matching_eng.Book.Sound.{IsSound}

-- Another reading of the clock.
abbrev pub ticked : OrderBook → OrderBook
ticked b = record b { clock_reads = b.clock_reads + 1 }

pub levels_of-ticked : (s : Side) (b : OrderBook) → levels_of s (ticked b) ≡ levels_of s b
levels_of-ticked bid b = refl
levels_of-ticked ask b = refl

pub ticked-IsSound : (b : OrderBook) → IsSound b → IsSound (ticked b)
ticked-IsSound b v = record {
  book = record { bids = v.book.bids; asks = v.book.asks; table = v.book.table };
  shared = v.shared;
}

pub ticked-IsLive :
    (id : OrderId) (b : OrderBook) (e : OrderEntry) (o : Order)
    → IsLive id b e o
    → IsLive id (ticked b) e o
ticked-IsLive id b e o w = record {
  level = w.level;
  found = w.found;
  at = rw (levels_of-ticked e.side b) (w.at);
  node = w.node;
}

rest_adds : (q t : ℤ) → t +ℤ (q -ℤ t) ≡ q
rest_adds q t = eq_of_parts _ _ (omega (arith, +ℤ_parts, -ℤ_parts))

-- What cancelling an order and submitting it anew does: the order leaves its queue, the new one
-- matches with the other side, and what is left of it rests.
pub record Replaced (now_ns : ℕ → Timestamp) (id : OrderId) (e : OrderEntry) (o : Order)
    (left : LevelFifo) (px : Tick) (q : Quantity) (b : OrderBook) (r : ExecResult) (b' : OrderBook)
    : Type 0 where
  pub cancelled : OrderBook
  pub matched : OrderBook
  pub rested : OrderBook
  pub traded : Quantity
  pub finds : cancel now_ns id (ticked b) ≡ some (true, cancelled)
  pub erased : Erased e o left (ticked b) cancelled
  pub answers : r ≡ exec_result traded (q -ℤ traded)
  pub matches : Matched (opposite e.side) px q cancelled traded matched
  pub stops :
      IsStopped
        (opposite e.side)
        (incoming (replacement now_ns id e o px q (now_ns b.clock_reads)) px)
        (q -ℤ traded)
        matched
  pub settles :
      Settled (replacement now_ns id e o px q (now_ns b.clock_reads)) (q -ℤ traded) matched rested
  pub tells : Announced rested b'

module _ (now_ns : ℕ → Timestamp) (id : OrderId) (b : OrderBook) (e : OrderEntry) (o : Order)
    (w : IsLive id b e o) where
  -- The order keeps its place at a lower quantity, or it is replaced.
  abbrev pub InPlaceOrReplaced : Tick → Quantity → ExecResult → OrderBook → Type 0
  InPlaceOrReplaced px q r b' =
      (((px == e.price) && ltb_ℤ q o.qty ≡ true)
        × (r ≡ exec_result 0ℤ q)
        × Resized e o q w.level b b')
      ⊎ (((px == e.price) && ltb_ℤ q o.qty ≡ false)
          × Replaced now_ns id e o (rest_of (ticked-IsLive id b e o w)) px q b r b')

  -- What a modification returns.
  abbrev pub Modified : Tick → Quantity → Option (ExecResult × OrderBook) → Type 0
  Modified px q done =
      (r : ExecResult) × (b' : OrderBook) × (done ≡ some (r, b'))
      × (r.filled +ℤ r.remaining ≡ q)
      × IsSound b'
      × InPlaceOrReplaced px q r b'

pub valid-same :
    (p q : PriceLevels) (px : Tick)
    → q.band ≡ p.band
    → is_valid_price p px ≡ true
    → is_valid_price q px ≡ true
unfolding is_valid_price
valid-same p q px e h = rw e h

module _ (now_ns : ℕ → Timestamp) (id : OrderId) (b : OrderBook) (e : OrderEntry) (o : Order)
    (w : IsLive id b e o) where
  replace-Modified :
      (px : Tick) (q : Quantity)
      → IsSound b
      → is_valid_price (levels_of e.side b) px ≡ true
      → id ≢ FlatMap.empty_key
      → 0ℤ ≤ℤ q
      → (r : ExecResult) × (b' : OrderBook) × (replace now_ns id e o px q b ≡ some (r, b'))
        × (r.filled +ℤ r.remaining ≡ q)
        × IsSound b'
        × Replaced now_ns id e o (rest_of (ticked-IsLive id b e o w)) px q b r b'
  unfolding replace
  replace-Modified px q v good key hq =
      let (c, eq, k, r) =
        cancel-IsSound now_ns id (ticked b) e o (ticked-IsLive id b e o w) (ticked-IsSound b v) in
      let cmd = replacement now_ns id e o px q (now_ns b.clock_reads) in
      let valid : is_valid_price (levels_of e.side c) px ≡ true =
        valid-same (levels_of e.side b) (levels_of e.side c) px
          (r.band ∙ ap (λ (z : PriceLevels). z.band) (levels_of-ticked e.side b)) good in
      let (t, m, u, b', f, ok, stop, done, a, z) =
        submit_limit_lem now_ns cmd c k refl valid key hq in
      (
        exec_result t (q -ℤ t),
        b',
        rw eq f,
        rest_adds q t,
        z,
        record {
          cancelled = c;
          matched = m;
          rested = u;
          traded = t;
          finds = eq;
          erased = r;
          answers = refl;
          matches = ok;
          stops = stop;
          settles = done;
          tells = a;
        },
      )

  -- On a sound book, modifying an order that the index leads to, to any price of the band and any
  -- positive quantity, always returns, filled and remaining add up to the new quantity, and the
  -- book is sound. At its old price and a lower quantity the order keeps its place. Otherwise it
  -- leaves its queue by a cancel that finds it, and an order of the same identifier and side and
  -- of the new price and quantity is matched with the other side; what is left of it joins the
  -- end of the queue at the new price and is known to the index.
  pub modify-Modified :
      (px : Tick) (q : Quantity)
      → IsSound b
      → is_valid_price (levels_of e.side b) px ≡ true
      → id ≢ FlatMap.empty_key
      → 0ℤ <ℤ q
      → Modified now_ns id b e o w px q (modify now_ns id px q b)
  modify-Modified px q v good key pos =
      rw (modify-live now_ns id b e o w px q)
        (elim (Bool-cases ((px == e.price) && ltb_ℤ q o.qty)) [
          | inl in_place ↦
              let (b', f, r, k) = resize_in_place_lem now_ns id b e o w q v pos in
              (
                exec_result 0ℤ q,
                b',
                rw in_place f,
                eq_of_parts _ _ (omega (arith, +ℤ_parts)),
                k,
                inl (in_place, refl, r),
              )
          | inr moved ↦
              let (r, b', f, adds, k, how) = replace-Modified px q v good key (omega arith) in
              (r, b', rw moved f, adds, k, inr (moved, how))
        ])
