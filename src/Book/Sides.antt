-- ===== src/Book/Sides.antt =====
-- What one side of the book keeps: well-formed queues in the band, and a best price whose level
-- holds orders and whose remembered pointer is that level (include/hyperliquid/order_book.h,
-- include/hyperliquid/price_levels_array.h).
use hyperliquid_matching_eng.Base.{
  ℕ, ◌+◌, ◌-◌, ◌≤◌, ◌<◌, ◌≡◌, refl, true, arith, none, some, ◌⊎◌, inl, inr, Bool-cases, subst, sym,
  length, get_elem?,
}
use hyperliquid_matching_eng.Types.{Tick, Side, bid, ask}
use hyperliquid_matching_eng.Order.{LevelFifo}
use hyperliquid_matching_eng.Order.Laws.{IsLevel}
use hyperliquid_matching_eng.PriceLevels.{
  PriceLevels, has_level, is_valid_price, idx, best_level_ptr, set_best_bid, set_best_ask,
}
use hyperliquid_matching_eng.Book.State.{
  search_bid, search_ask, empty_of, best_of, refresh_levels, max_search,
}
use hyperliquid_matching_eng.Book.Search.{
  IsBand, NextBest, search_bid_lem, search_ask_lem, has_level-of_invalid,
}

-- The best price is the sentinel and the pointer null, or the level at the best price holds
-- orders and the pointer is its index.
abbrev pub IsMarked : Side → PriceLevels → Type 0
IsMarked s p =
    ((best_of s p ≡ empty_of s) × (best_level_ptr p s ≡ none))
    ⊎ ((has_level p (best_of s p) ≡ true) × (best_level_ptr p s ≡ idx p (best_of s p)))

abbrev pub Queues : PriceLevels → Type 0
Queues p = (i : ℕ) (l : LevelFifo) → get_elem? p.levels i ≡ some l → IsLevel l

pub record IsArray (p : PriceLevels) : Type 0 where
  pub band : IsBand p
  pub ordered : p.band.min_tick ≤ p.band.max_tick
  pub width : length p.levels ≡ p.band.max_tick + 1 - p.band.min_tick
  pub queues : Queues p

pub record IsSide (s : Side) (p : PriceLevels) : Type 0 where
  pub array : IsArray p
  pub marked : IsMarked s p

-- How many prices of the band are left behind the best one, itself included.
abbrev pub prices_left : Side → PriceLevels → ℕ
prices_left bid p = p.best_bid + 1 - p.band.min_tick
prices_left ask p = p.band.max_tick + 1 - p.best_ask

pub has_level-valid :
    (p : PriceLevels) (px : Tick) → has_level p px ≡ true → is_valid_price p px ≡ true
has_level-valid p px h = elim (Bool-cases (is_valid_price p px)) [
  | inl good ↦ good
  | inr bad ↦ let e = has_level-of_invalid p px bad in cc
]

pub valid-idx :
    (p : PriceLevels) (px : Tick)
    → is_valid_price p px ≡ true
    → idx p px ≡ some (px - p.band.min_tick)
unfolding idx
valid-idx p px h = rw h refl

pub valid-bounds :
    (p : PriceLevels) (px : Tick)
    → is_valid_price p px ≡ true
    → (p.band.min_tick ≤ px) × (px ≤ p.band.max_tick)
unfolding is_valid_price
valid-bounds p px h = ground arith

-- The search for the next best price leaves the array as it was, marks what it has found, and has
-- found the nearest level that holds orders, within 10000 ticks.
pub record IsRefreshed (s : Side) (p q : PriceLevels) : Type 0 where
  pub levels : q.levels ≡ p.levels
  pub band : q.band ≡ p.band
  pub marked : IsMarked s q
  pub next : NextBest s p (best_of s p) (max_search + 1) (best_of s q)

set_best_bid-IsRefreshed :
    (p : PriceLevels) (r : Tick)
    → IsBand p
    → NextBest bid p p.best_bid (max_search + 1) r
    → IsRefreshed bid p (set_best_bid p r)
unfolding set_best_bid has_level best_level_ptr
set_best_bid-IsRefreshed p r b n = record {
  levels = refl;
  band = refl;
  marked = elim n [
    | inl none_left ↦ inl (none_left.0, rw (none_left.0) refl)
    | inr found ↦
        let v = valid-bounds p r (has_level-valid p r found.0) in
        inr (found.0, ground (arith, b.low))
  ];
  next = n;
}

set_best_ask-IsRefreshed :
    (p : PriceLevels) (r : Tick)
    → IsBand p
    → NextBest ask p p.best_ask (max_search + 1) r
    → IsRefreshed ask p (set_best_ask p r)
unfolding set_best_ask has_level best_level_ptr
set_best_ask-IsRefreshed p r b n = record {
  levels = refl;
  band = refl;
  marked = elim n [
    | inl none_left ↦ inl (none_left.0, rw (none_left.0) refl)
    | inr found ↦
        let v = valid-bounds p r (has_level-valid p r found.0) in
        inr (found.0, ground (arith, b.high))
  ];
  next = n;
}

-- In a band between the sentinels, from a best price in the band, `refresh_best_after_depletion`
-- leaves the array as it was and marks the side again: the price that it settles on holds orders,
-- is behind the old one, with no orders between them, and its level is the one remembered; or it
-- is the sentinel, and no level within 10000 ticks behind the old price holds orders.
pub refresh_levels-IsRefreshed :
    (s : Side) (p : PriceLevels)
    → IsBand p
    → is_valid_price p (best_of s p) ≡ true
    → IsRefreshed s p (refresh_levels s p)
unfolding refresh_levels
refresh_levels-IsRefreshed bid p b h =
    let v = valid-bounds p p.best_bid h in
    let r = set_best_bid-IsRefreshed p _ b (search_bid_lem p b p.best_bid v.1) in
    let e : refresh_levels bid p ≡ set_best_bid p (search_bid p p.best_bid max_search 1) =
      ground (arith, b.low) in
    subst (IsRefreshed bid p) (sym e) r
refresh_levels-IsRefreshed ask p b h =
    let v = valid-bounds p p.best_ask h in
    let r = set_best_ask-IsRefreshed p _ b (search_ask_lem p b p.best_ask v.0) in
    let e : refresh_levels ask p ≡ set_best_ask p (search_ask p p.best_ask max_search 1) =
      ground (arith, b.high) in
    subst (IsRefreshed ask p) (sym e) r

-- The second best price is no better than the first.
abbrev pub Recedes : Side → PriceLevels → PriceLevels → Type 0
Recedes bid p q = q.best_bid ≤ p.best_bid
Recedes ask p q = p.best_ask ≤ q.best_ask

pub Recedes-refl : (s : Side) (p : PriceLevels) → Recedes s p p
Recedes-refl bid p = omega arith
Recedes-refl ask p = omega arith

pub Recedes-trans : (s : Side) (p q r : PriceLevels) → Recedes s p q → Recedes s q r → Recedes s p r
Recedes-trans bid p q r h k = omega arith
Recedes-trans ask p q r h k = omega arith

pub IsRefreshed-Recedes :
    (s : Side) (p q : PriceLevels)
    → IsBand p
    → is_valid_price p (best_of s p) ≡ true
    → IsRefreshed s p q
    → Recedes s p q
IsRefreshed-Recedes bid p q b h r = elim (r.next) [
  | inl none_left ↦ omega arith
  | inr found ↦ omega arith
]
IsRefreshed-Recedes ask p q b h r =
    let v = valid-bounds p p.best_ask h in
    elim (r.next) [ inl none_left ↦ omega (arith, b.high) | inr found ↦ omega arith ]

-- Each search leaves fewer prices.
pub prices_left-IsRefreshed :
    (s : Side) (p q : PriceLevels)
    → IsBand p
    → is_valid_price p (best_of s p) ≡ true
    → IsRefreshed s p q
    → prices_left s q < prices_left s p
prices_left-IsRefreshed bid p q b h r =
    let v = valid-bounds p p.best_bid h in
    let e : q.band.min_tick ≡ p.band.min_tick = rw (r.band) refl in
    elim (r.next) [
      | inl none_left ↦ omega (arith, b.low)
      | inr found ↦ let w = valid-bounds p q.best_bid (has_level-valid p _ found.0) in omega arith
    ]
prices_left-IsRefreshed ask p q b h r =
    let v = valid-bounds p p.best_ask h in
    let e : q.band.max_tick ≡ p.band.max_tick = rw (r.band) refl in
    elim (r.next) [
      | inl none_left ↦ omega (arith, b.high)
      | inr found ↦ let w = valid-bounds p q.best_ask (has_level-valid p _ found.0) in omega arith
    ]

pub prices_left-le-length :
    (s : Side) (p : PriceLevels) → IsSide s p → prices_left s p ≤ length p.levels
prices_left-le-length bid p v = elim (v.marked) [
  | inl bare ↦ omega (arith, v.array.width)
  | inr held ↦
      omega (arith, v.array.width, valid-bounds p p.best_bid (has_level-valid p p.best_bid held.0))
]
prices_left-le-length ask p v = elim (v.marked) [
  | inl bare ↦ omega (arith, v.array.width, v.array.band.high)
  | inr held ↦
      omega (arith, v.array.width, valid-bounds p p.best_ask (has_level-valid p p.best_ask held.0))
]
