-- ===== src/Book/Joining.antt =====
-- A side of the book when an order joins the queue at its price
-- (include/hyperliquid/order_book.h, include/hyperliquid/price_levels_array.h).
use hyperliquid_matching_eng.Base.{
  ◌<◌, ◌≡◌, refl, true, false, arith, some, inl, inr, Bool-cases, ◌∙◌, if◌then◌else◌,
  get_elem?-of_lt, get_elem?-set_self, set, length, lt-of_get_elem?,
}
use hyperliquid_matching_eng.Types.{Tick, Side, bid, ask}
use hyperliquid_matching_eng.Order.{LevelFifo, is_empty}
use hyperliquid_matching_eng.Order.Laws.{IsLevel}
use hyperliquid_matching_eng.PriceLevels.{
  PriceLevels, get_level, is_valid_price, idx, has_level, best_level_ptr, set_best_bid,
  set_best_ask,
}
use hyperliquid_matching_eng.Book.State.{best_of, empty_of, set_best}
use hyperliquid_matching_eng.Book.Submit.{improves}
use hyperliquid_matching_eng.Book.Search.{IsBand}
use hyperliquid_matching_eng.Book.Sides.{
  IsSide, IsArray, IsMarked, valid-bounds, valid-idx, has_level-valid,
}
use hyperliquid_matching_eng.Book.Filled.{filled, IsArray-filled, has_level-filled}
use hyperliquid_matching_eng.Book.Erasing.{get_level-slot, slot_of}
use hyperliquid_matching_eng.Book.Without.{kept-IsMarked}

pub get_level-valid :
    (p : PriceLevels) (px : Tick)
    → IsArray p
    → is_valid_price p px ≡ true
    → (l : LevelFifo) × (get_level p px ≡ some l) × IsLevel l
unfolding get_level
get_level-valid p px v good =
    let b = valid-bounds p px good in
    let (l, here) = get_elem?-of_lt p.levels (slot_of p px) (omega (arith, v.width)) in
    (l, rw (valid-idx p px good) here, v.queues (slot_of p px) l here)

get_level-filled :
    (p : PriceLevels) (px : Tick) (l : LevelFifo)
    → is_valid_price p px ≡ true
    → slot_of p px < length p.levels
    → get_level (filled p (slot_of p px) l) px ≡ some l
unfolding get_level idx
get_level-filled p px l good h = ground (arith, get_elem?-set_self p.levels (slot_of p px) l h)

set_best-IsMarked :
    (s : Side) (p : PriceLevels) (px : Tick)
    → IsBand p
    → has_level p px ≡ true
    → IsMarked s (set_best s p px)
unfolding set_best_bid set_best_ask has_level best_level_ptr
set_best-IsMarked bid p px b h =
    let v = valid-bounds p px (has_level-valid p px h) in inr (h, ground (arith, b.low))
set_best-IsMarked ask p px b h =
    let v = valid-bounds p px (has_level-valid p px h) in inr (h, ground (arith, b.high))

set_best-IsArray : (s : Side) (p : PriceLevels) (px : Tick) → IsArray p → IsArray (set_best s p px)
unfolding set_best_bid set_best_ask
set_best-IsArray bid p px v = record {
  band = record { low = v.band.low; high = v.band.high };
  ordered = v.ordered;
  width = v.width;
  queues = v.queues;
}
set_best-IsArray ask p px v = record {
  band = record { low = v.band.low; high = v.band.high };
  ordered = v.ordered;
  width = v.width;
  queues = v.queues;
}

-- A price of the band is better than the sentinel.
improves-empty :
    (s : Side) (p : PriceLevels) (px : Tick)
    → IsBand p
    → is_valid_price p px ≡ true
    → improves s px (empty_of s) ≡ true
improves-empty bid p px b good = let v = valid-bounds p px good in ground (arith, b.low)
improves-empty ask p px b good = let v = valid-bounds p px good in ground (arith, b.high)

-- The side with the queue at a price replaced by one that holds orders, marked again where that
-- price is better than the best one.
abbrev pub joined : Side → PriceLevels → Tick → LevelFifo → PriceLevels
joined s p px l =
    let q = filled p (slot_of p px) l in if improves s px (best_of s q) then set_best s q px else q

pub joined-IsSide :
    (s : Side) (p : PriceLevels) (px : Tick) (old l : LevelFifo)
    → IsSide s p
    → get_level p px ≡ some old
    → IsLevel l
    → is_empty l ≡ false
    → IsSide s (joined s p px l)
joined-IsSide s p px old l v at w holds =
    let q = filled p (slot_of p px) l in
    let (good, here) = get_level-slot p px old at in
    let arr : IsArray q = IsArray-filled p (slot_of p px) l v.array w in
    elim (Bool-cases (improves s px (best_of s q))) [
      | inl better ↦ rw better (record {
        array = set_best-IsArray s q px arr;
        marked = set_best-IsMarked s q px arr.band (
            has_level-filled p (slot_of p px) l px (valid-idx p px good)
              (lt-of_get_elem? p.levels (slot_of p px) old here) holds);
      })
      | inr not_better ↦
          rw not_better
            (record { array = arr; marked = kept-IsMarked s p px old l v.marked at holds })
    ]

-- Only the queue at the price changes.
pub levels-joined :
    (s : Side) (p : PriceLevels) (px : Tick) (l : LevelFifo)
    → ((joined s p px l).levels ≡ set p.levels (slot_of p px) l) × ((joined s p px l).band ≡ p.band)
unfolding set_best_bid set_best_ask
levels-joined bid p px l = elim (Bool-cases (improves bid px p.best_bid)) [
  | inl better ↦ (rw better refl, rw better refl)
  | inr not_better ↦ (rw not_better refl, rw not_better refl)
]
levels-joined ask p px l = elim (Bool-cases (improves ask px p.best_ask)) [
  | inl better ↦ (rw better refl, rw better refl)
  | inr not_better ↦ (rw not_better refl, rw not_better refl)
]

get_level-same :
    (p q : PriceLevels) (px : Tick)
    → q.levels ≡ p.levels
    → q.band ≡ p.band
    → get_level q px ≡ get_level p px
unfolding get_level idx is_valid_price
get_level-same p q px e f = rw (e, f) refl

pub get_level-joined :
    (s : Side) (p : PriceLevels) (px : Tick) (old l : LevelFifo)
    → get_level p px ≡ some old
    → get_level (joined s p px l) px ≡ some l
get_level-joined s p px old l at =
    let (good, here) = get_level-slot p px old at in
    let (e, f) = levels-joined s p px l in
    get_level-same (filled p (slot_of p px) l) (joined s p px l) px e f
    ∙ get_level-filled p px l good (lt-of_get_elem? p.levels (slot_of p px) old here)

pub best-joined :
    (s : Side) (p : PriceLevels) (px : Tick) (l : LevelFifo)
    → best_of s (joined s p px l) ≡ (if improves s px (best_of s p) then px else best_of s p)
unfolding set_best_bid set_best_ask
best-joined bid p px l = elim (Bool-cases (improves bid px p.best_bid)) [
  | inl better ↦ rw better refl
  | inr not_better ↦ rw not_better refl
]
best-joined ask p px l = elim (Bool-cases (improves ask px p.best_ask)) [
  | inl better ↦ rw better refl
  | inr not_better ↦ rw not_better refl
]
