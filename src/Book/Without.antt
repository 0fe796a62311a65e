-- ===== src/Book/Without.antt =====
-- A side of the book when an order has left the queue at its price
-- (include/hyperliquid/order_book.h, include/hyperliquid/price_levels_array.h).
use hyperliquid_matching_eng.Base.{
  ℕ, ◌≡◌, refl, true, false, arith, some, inl, inr, Bool-cases, subst, sym, ◌∙◌, set,
  lt-of_get_elem?, if◌then◌else◌, ℕ_discrete,
}
use hyperliquid_matching_eng.Types.{Tick, Side, bid, ask}
use hyperliquid_matching_eng.Order.{LevelFifo, is_empty}
use hyperliquid_matching_eng.Order.Laws.{IsLevel}
use hyperliquid_matching_eng.PriceLevels.{PriceLevels, get_level, has_level, best_level_ptr, idx}
use hyperliquid_matching_eng.Book.State.{best_of, empty_of, refresh_levels}
use hyperliquid_matching_eng.Book.Sides.{
  IsSide, IsArray, IsMarked, Recedes, Recedes-refl, IsRefreshed-Recedes, refresh_levels-IsRefreshed,
  has_level-valid, valid-idx,
}
use hyperliquid_matching_eng.Book.Filled.{
  filled, IsArray-filled, Recedes-filled, valid-filled, IsSide-IsRefreshed, has_level-filled,
}
use hyperliquid_matching_eng.Book.Erasing.{get_level-slot, has_level-filled_ne, slot_of}

pub best-filled :
    (s : Side) (p : PriceLevels) (i : ℕ) (l : LevelFifo) → best_of s (filled p i l) ≡ best_of s p
best-filled bid p i l = refl
best-filled ask p i l = refl

pub ptr-filled :
    (s : Side) (p : PriceLevels) (i : ℕ) (l : LevelFifo)
    → best_level_ptr (filled p i l) s ≡ best_level_ptr p s
unfolding best_level_ptr
ptr-filled bid p i l = refl
ptr-filled ask p i l = refl

pub idx-filled :
    (p : PriceLevels) (i : ℕ) (l : LevelFifo) (px : Tick) → idx (filled p i l) px ≡ idx p px
unfolding idx
idx-filled p i l px = refl

-- A level that stays occupied leaves the side marked as it was.
pub kept-IsMarked :
    (s : Side) (p : PriceLevels) (px : Tick) (old l : LevelFifo)
    → IsMarked s p
    → get_level p px ≡ some old
    → is_empty l ≡ false
    → IsMarked s (filled p (slot_of p px) l)
kept-IsMarked s p px old l m at holds =
    let i = slot_of p px in
    let (good, here) = get_level-slot p px old at in
    elim m [
      | inl e ↦ inl (best-filled s p i l ∙ e.0, ptr-filled s p i l ∙ e.1)
      | inr e ↦ inr (
        rw (best-filled s p i l) (elim (ℕ_discrete px (best_of s p)) [
          | yes same ↦
              subst (λ q. has_level (filled p i l) q ≡ true) same
                (has_level-filled p i l px (valid-idx p px good)
                  (lt-of_get_elem? p.levels i old here) holds)
          | no other ↦ has_level-filled_ne p px (best_of s p) l good other ∙ e.0
        ]),
        ptr-filled s p i l ∙ e.1 ∙ rw (best-filled s p i l) (sym (idx-filled p i l (best_of s p))),
      )
    ]

refresh_levels-empty :
    (s : Side) (p : PriceLevels) → best_of s p ≡ empty_of s → refresh_levels s p ≡ p
unfolding refresh_levels
refresh_levels-empty bid p e = ground arith
refresh_levels-empty ask p e = ground arith

-- After a level has been emptied, the search leaves the side marked.
emptied-IsSide :
    (s : Side) (p : PriceLevels) (i : ℕ) (l : LevelFifo)
    → IsMarked s p
    → IsArray (filled p i l)
    → IsSide s (refresh_levels s (filled p i l))
      × ((refresh_levels s (filled p i l)).levels ≡ set p.levels i l)
      × ((refresh_levels s (filled p i l)).band ≡ p.band)
      × Recedes s p (refresh_levels s (filled p i l))
emptied-IsSide s p i l m v = elim m [
  | inl e ↦ rw (refresh_levels-empty s (filled p i l) (best-filled s p i l ∙ e.0)) (
    record { array = v; marked = inl (best-filled s p i l ∙ e.0, ptr-filled s p i l ∙ e.1) },
    refl,
    refl,
    Recedes-filled s p (filled p i l) i l (Recedes-refl s (filled p i l)),
  )
  | inr e ↦
      let good = has_level-valid p (best_of s p) e.0 in
      let r = refresh_levels-IsRefreshed s (filled p i l) v.band (valid-filled s p i l good) in
      (
        IsSide-IsRefreshed s (filled p i l) _ v r,
        r.levels,
        r.band,
        Recedes-filled s p _ i l
            (IsRefreshed-Recedes s (filled p i l) _ v.band (valid-filled s p i l good) r),
      )
]

-- The levels of a side after an order has been erased from one of them.
abbrev pub without : Side → PriceLevels → ℕ → LevelFifo → PriceLevels
without s p i l = if is_empty l then refresh_levels s (filled p i l) else filled p i l

pub without-IsSide :
    (s : Side) (p : PriceLevels) (px : Tick) (old l : LevelFifo)
    → IsSide s p
    → get_level p px ≡ some old
    → IsLevel l
    → IsSide s (without s p (slot_of p px) l)
      × ((without s p (slot_of p px) l).levels ≡ set p.levels (slot_of p px) l)
      × ((without s p (slot_of p px) l).band ≡ p.band)
      × Recedes s p (without s p (slot_of p px) l)
without-IsSide s p px old l v at w =
    let i = slot_of p px in
    let arr = IsArray-filled p i l v.array w in
    elim (Bool-cases (is_empty l)) [
      | inl out ↦ rw out (emptied-IsSide s p i l v.marked arr)
      | inr holds ↦ rw holds (
        record { array = arr; marked = kept-IsMarked s p px old l v.marked at holds },
        refl,
        refl,
        Recedes-filled s p (filled p i l) i l (Recedes-refl s (filled p i l)),
      )
    ]
