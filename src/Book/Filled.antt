-- ===== src/Book/Filled.antt =====
-- The level at the best price of a side, and the side after that level has been filled
-- (include/hyperliquid/order_book.h).
use hyperliquid_matching_eng.Base.{
  ℕ, ◌<◌, ◌≡◌, refl, true, false, arith, some, inl, inr, Option-cases, lt-of_get_elem?, subst, sym,
  ◌∙◌, length, get_elem?, set, length-set, get_elem?-set_self, get_elem?-set_ne, ℕ_discrete,
  some_inj,
}
use hyperliquid_matching_eng.Types.{Tick, Side, bid, ask}
use hyperliquid_matching_eng.Order.{LevelFifo, is_empty}
use hyperliquid_matching_eng.Order.Laws.{IsLevel}
use hyperliquid_matching_eng.PriceLevels.{
  PriceLevels, has_level, is_valid_price, idx, best_level_ptr,
}
use hyperliquid_matching_eng.Book.State.{best_of}
use hyperliquid_matching_eng.Book.Sides.{
  IsSide, IsArray, IsMarked, IsRefreshed, Recedes, Queues, prices_left, has_level-valid,
}

-- What the level at the best price is, when the side is not empty.
pub record Best (s : Side) (p : PriceLevels) (i : ℕ) : Type 0 where
  pub level : LevelFifo
  pub here : get_elem? p.levels i ≡ some level
  pub holds : is_empty level ≡ false
  pub valid : is_valid_price p (best_of s p) ≡ true
  pub index : idx p (best_of s p) ≡ some i

has_level-get :
    (p : PriceLevels) (px : Tick) (i : ℕ)
    → has_level p px ≡ true
    → idx p px ≡ some i
    → (l : LevelFifo) × (get_elem? p.levels i ≡ some l) × (is_empty l ≡ false)
unfolding has_level
has_level-get p px i h e = elim (Option-cases (get_elem? p.levels i)) [
  | inl bare ↦ absurd (ground arith)
  | inr (l, here) ↦ (l, here, ground arith)
]

pub IsMarked-Best :
    (s : Side) (p : PriceLevels) (i : ℕ) → IsMarked s p → best_level_ptr p s ≡ some i → Best s p i
IsMarked-Best s p i (inl m) e = absurd (ground arith)
IsMarked-Best s p i (inr m) e =
    let (l, here, holds) = has_level-get p (best_of s p) i m.0 (sym (m.1) ∙ e) in
    record {
      level = l;
      here = here;
      holds = holds;
      valid = has_level-valid p (best_of s p) m.0;
      index = sym (m.1) ∙ e;
    }

-- The array with the queue at index `i` changed.
abbrev pub filled : PriceLevels → ℕ → LevelFifo → PriceLevels
filled p i l = record p { levels = set p.levels i l }

pub Recedes-filled :
    (s : Side) (p q : PriceLevels) (i : ℕ) (l : LevelFifo)
    → Recedes s (filled p i l) q
    → Recedes s p q
Recedes-filled bid p q i l h = h
Recedes-filled ask p q i l h = h

pub IsArray-filled :
    (p : PriceLevels) (i : ℕ) (l : LevelFifo) → IsArray p → IsLevel l → IsArray (filled p i l)
IsArray-filled p i l v w = record {
  band = record { low = v.band.low; high = v.band.high };
  ordered = v.ordered;
  width = length-set p.levels i l ∙ v.width;
  queues = queues;
}
  where
    written :
        {j : ℕ} → i ≡ j → j < length (set p.levels i l) → get_elem? (set p.levels i l) j ≡ some l
    written {j} same h =
        subst (λ k. get_elem? (set p.levels i l) k ≡ some l) same
          (get_elem?-set_self p.levels i l (omega (arith, length-set p.levels i l)))

    queues : Queues (filled p i l)
    queues j k e = elim (ℕ_discrete i j) [
      | yes same ↦ subst IsLevel (some_inj (sym (written same (lt-of_get_elem? _ j k e)) ∙ e)) w
      | no other ↦ v.queues j k (sym (get_elem?-set_ne p.levels l other) ∙ e)
    ]

pub has_level-filled :
    (p : PriceLevels) (i : ℕ) (l : LevelFifo) (px : Tick)
    → idx p px ≡ some i
    → i < length p.levels
    → is_empty l ≡ false
    → has_level (filled p i l) px ≡ true
unfolding has_level
has_level-filled p i l px e h k = ground (arith, get_elem?-set_self p.levels i l h)

pub IsMarked-filled :
    (s : Side) (p : PriceLevels) (i : ℕ) (l : LevelFifo)
    → Best s p i
    → best_level_ptr p s ≡ some i
    → is_empty l ≡ false
    → IsMarked s (filled p i l)
unfolding best_level_ptr idx
IsMarked-filled bid p i l v e h = inr (
  has_level-filled p i l p.best_bid v.index (lt-of_get_elem? p.levels i v.level v.here) h,
  e ∙ sym (v.index),
)
IsMarked-filled ask p i l v e h = inr (
  has_level-filled p i l p.best_ask v.index (lt-of_get_elem? p.levels i v.level v.here) h,
  e ∙ sym (v.index),
)

pub valid-filled :
    (s : Side) (p : PriceLevels) (i : ℕ) (l : LevelFifo)
    → is_valid_price p (best_of s p) ≡ true
    → is_valid_price (filled p i l) (best_of s (filled p i l)) ≡ true
unfolding is_valid_price
valid-filled bid p i l h = h
valid-filled ask p i l h = h

pub prices_left-filled :
    (s : Side) (p : PriceLevels) (i : ℕ) (l : LevelFifo)
    → prices_left s (filled p i l) ≡ prices_left s p
prices_left-filled bid p i l = refl
prices_left-filled ask p i l = refl

-- A search for the next best price keeps the array.
pub IsSide-IsRefreshed : (s : Side) (p q : PriceLevels) → IsArray p → IsRefreshed s p q → IsSide s q
IsSide-IsRefreshed s p q v r = record {
  array = record {
    band = rw (r.band) (record { low = v.band.low; high = v.band.high });
    ordered = rw (r.band) (v.ordered);
    width = rw (r.levels, r.band) (v.width);
    queues = λ i l e. v.queues i l (rw (r.levels) at e);
  };
  marked = r.marked;
}
