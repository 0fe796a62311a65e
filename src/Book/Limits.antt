-- ===== src/Book/Limits.antt =====
-- Limit orders from `submit_limit` to their end (include/hyperliquid/order_book.h), on a book that is
-- sound as a whole.
use hyperliquid_matching_eng.Base.{
  ℕ, ◌+◌, ◌≡◌, ◌≢◌, refl, true, false, arith, some, ◌⊎◌, inl, inr, Bool-cases, ◌∙◌, ap, subst,
  set-set, set-get_elem?,
}
use hyperliquid_matching_eng.Base.Int.{
  ◌-ℤ◌, ◌<ℤ◌, ◌≤ℤ◌, ltb_ℤ, lt-of_ltb_ℤ, le-of_ltb_ℤ, 0ℤ, -ℤ_parts, eq_of_parts,
}
use hyperliquid_matching_eng.Types.{
  Quantity, Timestamp, Side, bid, ask, TimeInForce, gtc, gtd, ioc, fok,
}
use hyperliquid_matching_eng.Command.{OrderCommand, exec_result}
use hyperliquid_matching_eng.Order.{Addr, enqueue}
use hyperliquid_matching_eng.Order.Copies.{one, copies-enqueue, held-set}
use hyperliquid_matching_eng.Order.Enqueue.{deref-enqueue, erase-enqueue}
use hyperliquid_matching_eng.SlabPool.Sharing.{alloc-IsShared}
use hyperliquid_matching_eng.PriceLevels.{get_level, is_valid_price}
use hyperliquid_matching_eng.FlatMap
use hyperliquid_matching_eng.Book.State.{
  OrderBook, OrderEntry, levels_of, best_of, empty_of, opposite,
}
use hyperliquid_matching_eng.Book.Matching.{past_limit}
use hyperliquid_matching_eng.Book.Submit.{
  resting, rest_in_book, match_if_crossing, settle, submit_limit_side, submit_limit, rests, is_fok,
  incoming,
}
use hyperliquid_matching_eng.Book.Cancel.{cancel}
use hyperliquid_matching_eng.Book.Erasing.{get_level-slot, slot_of}
use hyperliquid_matching_eng.Book.Matched.{Matched}
use hyperliquid_matching_eng.Book.Filling.{IsStopped}
use hyperliquid_matching_eng.Book.Takers.{
  IsBook, Announced, reply-Answer, match_if_crossing-Matched,
}
use hyperliquid_matching_eng.Book.Cancels.{IsLive, Announced-levels, cancel_lem}
use hyperliquid_matching_eng.Book.Resting.{Rested, rest_in_book-Rested}
use hyperliquid_matching_eng.Book.Cancelled.{Erased-IsSound}
use hyperliquid_matching_eng.Book.Sound.{
  IsSound, nodes_from, IsShared-from, sound_from, Announced-IsSound, Matched-IsSound,
  IsApart-of_IsSound,
}

Rested-IsSound :
    (s : Side) (cmd : OrderCommand) (remaining : Quantity) (b b' : OrderBook)
    → IsSound b
    → IsBook b'
    → Rested s cmd remaining b b'
    → IsSound b'
Rested-IsSound s cmd remaining b b' v w r =
    let o = resting cmd remaining r.node in
    let p = levels_of s b in
    let here = (get_level-slot p cmd.price_ticks r.level r.was).1 in
    let shared =
      alloc-IsShared b.order_pool b'.order_pool (nodes_from s b) r.node (IsShared-from s b v)
        r.allocated in
    let more : (a : Addr) → nodes_from s b' a ≡ one a r.node + nodes_from s b a = λ a.
      rw (r.levels, r.other)
        (omega (
          arith,
          copies-enqueue a r.level o,
          held-set a p.levels (slot_of p cmd.price_ticks) r.level (enqueue r.level o) here,
        )) in
    sound_from s b' w (record {
      once = λ a. omega (arith, more a, shared.once a);
      within = λ a h. omega (arith, more a, shared.within a h);
      slots = shared.slots;
    })

-- A quantity less nothing filled.
rest-all : (q : Quantity) → q -ℤ 0ℤ ≡ q
rest-all q = eq_of_parts _ _ (omega (arith, -ℤ_parts))

pub rests-not_fok : (tif : TimeInForce) → rests tif ≡ true → is_fok tif ≡ false
rests-not_fok gtc h = refl
rests-not_fok gtd h = refl
rests-not_fok ioc h = refl
rests-not_fok fok h = absurd (ground arith)

-- The best price of the other side does not cross the order's.
abbrev pub IsPassive : OrderCommand → OrderBook → Type 0
IsPassive cmd b =
    let t = opposite cmd.side in
    let best = best_of t (levels_of t b) in
    (best ≡ empty_of t) ⊎ (past_limit t best cmd.price_ticks ≡ true)

match_if_crossing-passive :
    (cmd : OrderCommand) (b : OrderBook)
    → IsPassive cmd b
    → match_if_crossing cmd.side cmd b ≡ some (0ℤ, b)
unfolding match_if_crossing
match_if_crossing-passive cmd b (inl bare) = ground arith
match_if_crossing-passive cmd b (inr past) = ground arith

-- On a sound book, an order comes to rest at a price of the band.
rest_in_book-IsSound :
    (s : Side) (cmd : OrderCommand) (remaining : Quantity) (b : OrderBook)
    → IsSound b
    → is_valid_price (levels_of s b) cmd.price_ticks ≡ true
    → cmd.order_id ≢ FlatMap.empty_key
    → 0ℤ <ℤ remaining
    → (b' : OrderBook) × (rest_in_book s cmd remaining b ≡ some b')
      × IsSound b'
      × Rested s cmd remaining b b'
rest_in_book-IsSound s cmd remaining b v good id more =
    let (b', e, w, r) =
      rest_in_book-Rested s cmd remaining b v.book good (IsApart-of_IsSound s cmd.price_ticks b v)
        v.shared.slots id more in
    (b', e, Rested-IsSound s cmd remaining b b' v w r, r)

-- What `submit_limit` does with the rest of an order that may rest: nothing if there is none.
abbrev pub Settled : OrderCommand → Quantity → OrderBook → OrderBook → Type 0
Settled cmd remaining b b' =
    ((remaining ≤ℤ 0ℤ) × (b' ≡ b)) ⊎ ((0ℤ <ℤ remaining) × Rested cmd.side cmd remaining b b')

pub settle-Settled :
    (now_ns : ℕ → Timestamp) (cmd : OrderCommand) (filled : Quantity) (b : OrderBook)
    → IsSound b
    → rests cmd.tif ≡ true
    → is_valid_price (levels_of cmd.side b) cmd.price_ticks ≡ true
    → cmd.order_id ≢ FlatMap.empty_key
    → (rested b' : OrderBook) × (settle now_ns cmd.side cmd filled b
        ≡ some (exec_result filled (cmd.qty -ℤ filled), b'))
      × Settled cmd (cmd.qty -ℤ filled) b rested
      × Announced rested b'
      × IsSound b'
unfolding settle
settle-Settled now_ns cmd filled b v rest good id =
    let remaining = cmd.qty -ℤ filled in
    elim (Bool-cases (ltb_ℤ 0ℤ remaining)) [
      | inl more ↦
          let (r, e, w, done) =
            rest_in_book-IsSound cmd.side cmd remaining b v good id
              (lt-of_ltb_ℤ 0ℤ remaining more) in
          let (b', f, a) =
            reply-Answer now_ns (exec_result filled remaining) r w.book.bids.marked
              w.book.asks.marked in
          (
            r,
            b',
            rw (more, rest, e) f,
            inr (lt-of_ltb_ℤ 0ℤ remaining more, done),
            a,
            Announced-IsSound r b' w a,
          )
      | inr none_left ↦
          let (b', f, a) =
            reply-Answer now_ns (exec_result filled remaining) b v.book.bids.marked
              v.book.asks.marked in
          (
            b,
            b',
            rw none_left f,
            inl (le-of_ltb_ℤ 0ℤ remaining none_left, refl),
            a,
            Announced-IsSound b b' v a,
          )
    ]

-- The other side of the other side.
pub own_side :
    (s : Side) (b b' : OrderBook)
    → levels_of (opposite (opposite s)) b' ≡ levels_of (opposite (opposite s)) b
    → levels_of s b' ≡ levels_of s b
own_side bid b b' e = e
own_side ask b b' e = e

-- On a sound book, a limit order that may rest (good till cancelled or till date), with a price
-- of the band, an identifier that is not the empty key and a quantity that is not negative,
-- always returns, and its answer splits the quantity into what it traded and the rest. It has
-- matched with the opposite side as `match_against_side` does; if anything is left, that joins
-- the end of the queue at its price, the best price of its side is the better one, and the index
-- knows where it is; the book is sound.
pub submit_limit_lem :
    (now_ns : ℕ → Timestamp) (cmd : OrderCommand) (b : OrderBook)
    → IsSound b
    → rests cmd.tif ≡ true
    → is_valid_price (levels_of cmd.side b) cmd.price_ticks ≡ true
    → cmd.order_id ≢ FlatMap.empty_key
    → 0ℤ ≤ℤ cmd.qty
    → let s = opposite cmd.side in
      (traded : Quantity) × (matched rested b' : OrderBook) × (submit_limit now_ns cmd b
        ≡ some (exec_result traded (cmd.qty -ℤ traded), b'))
      × Matched s cmd.price_ticks cmd.qty b traded matched
      × IsStopped s (incoming cmd cmd.price_ticks) (cmd.qty -ℤ traded) matched
      × Settled cmd (cmd.qty -ℤ traded) matched rested
      × Announced rested b'
      × IsSound b'
unfolding submit_limit submit_limit_side
submit_limit_lem now_ns cmd b v rest good id hq =
    let s = opposite cmd.side in
    let (t, m, e, ok, stop) = match_if_crossing-Matched now_ns cmd.side cmd b hq v.book in
    let sound = Matched-IsSound s cmd.price_ticks cmd.qty t b m v ok in
    let valid : is_valid_price (levels_of cmd.side m) cmd.price_ticks ≡ true =
      rw (own_side cmd.side b m ok.other) good in
    let (r, b', f, done, a, w) = settle-Settled now_ns cmd t m sound rest valid id in
    (t, m, r, b', rw (rests-not_fok cmd.tif rest, e) f, ok, stop, done, a, w)

-- An order that does not cross rests with its whole quantity.
submit_limit-Rested :
    (now_ns : ℕ → Timestamp) (cmd : OrderCommand) (b : OrderBook)
    → IsSound b
    → rests cmd.tif ≡ true
    → is_valid_price (levels_of cmd.side b) cmd.price_ticks ≡ true
    → cmd.order_id ≢ FlatMap.empty_key
    → 0ℤ <ℤ cmd.qty
    → IsPassive cmd b
    → (rested b' : OrderBook) × (submit_limit now_ns cmd b ≡ some (exec_result 0ℤ cmd.qty, b'))
      × Rested cmd.side cmd cmd.qty b rested
      × Announced rested b'
      × IsSound b'
unfolding submit_limit submit_limit_side
submit_limit-Rested now_ns cmd b v rest good id more passive =
    let (r, b', f, done, a, w) = settle-Settled now_ns cmd 0ℤ b v rest good id in
    (
      r,
      b',
      rw (rests-not_fok cmd.tif rest, match_if_crossing-passive cmd b passive)
          (f ∙ ap (λ q. some (exec_result 0ℤ q, b')) (rest-all cmd.qty)),
      elim done [
        | inl nothing ↦ absurd (omega (arith, -ℤ_parts, nothing.0))
        | inr some_left ↦ subst (λ q. Rested cmd.side cmd q b r) (rest-all cmd.qty) some_left.1
      ],
      a,
      w,
    )

-- On a sound book, a limit order of a positive quantity that may rest and does not cross the best
-- price of the other side, with a price of the band and an identifier that is not the empty key,
-- rests with its whole quantity; cancelling it at once returns true, and both the queues of its
-- side and the other side are again what they were before the order came.
pub submit_limit-cancel :
    (now_ns : ℕ → Timestamp) (cmd : OrderCommand) (b : OrderBook)
    → IsSound b
    → rests cmd.tif ≡ true
    → is_valid_price (levels_of cmd.side b) cmd.price_ticks ≡ true
    → cmd.order_id ≢ FlatMap.empty_key
    → 0ℤ <ℤ cmd.qty
    → IsPassive cmd b
    → (b' c : OrderBook) × (submit_limit now_ns cmd b ≡ some (exec_result 0ℤ cmd.qty, b'))
      × (cancel now_ns cmd.order_id b' ≡ some (true, c))
      × IsSound c
      × ((levels_of cmd.side c).levels ≡ (levels_of cmd.side b).levels)
      × (levels_of (opposite cmd.side) c ≡ levels_of (opposite cmd.side) b)
submit_limit-cancel now_ns cmd b v rest good id more passive =
    let s = cmd.side in
    let (r, b', e, done, a, w) = submit_limit-Rested now_ns cmd b v rest good id more passive in
    let o = resting cmd cmd.qty done.node in
    let entry : OrderEntry = record { side = s; price = cmd.price_ticks; node = done.node } in
    let same = Announced-levels s r b' a in
    let live : IsLive cmd.order_id b' entry o = record {
      level = enqueue done.level o;
      found = ap (λ m. FlatMap.find m cmd.order_id) a.id_index ∙ done.known;
      at = ap (λ p. get_level p cmd.price_ticks) same ∙ done.joins;
      node = deref-enqueue done.level o done.apart;
    } in
    let (c, f, k, erased, l) = cancel_lem now_ns cmd.order_id b' entry o live w.book in
    let here = (get_level-slot (levels_of s b) cmd.price_ticks done.level done.was).1 in
    (
      b',
      c,
      e,
      f,
      Erased-IsSound cmd.order_id entry o b' c live w k erased,
      erased.levels
          ∙ rw (same, done.band, erase-enqueue done.level o done.apart, done.levels)
              (set-set (levels_of s b).levels (slot_of (levels_of s b) cmd.price_ticks) _ done.level
                ∙ set-get_elem? (levels_of s b).levels (slot_of (levels_of s b) cmd.price_ticks)
                    done.level here),
      erased.other ∙ Announced-levels (opposite s) r b' a ∙ done.other,
    )
