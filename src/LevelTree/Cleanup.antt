-- ===== src/LevelTree/Cleanup.antt =====
-- `cleanup_empty_levels` of include/hyperliquid/price_levels_avl.h.
use hyperliquid_matching_eng.Base.{
  ◌≡◌, refl, arith, true, false, [], ◌∷◌, Bool-cases, inl, inr, ℕ_discrete, ◌∙◌, sym,
}
use hyperliquid_matching_eng.Types.{Tick}
use hyperliquid_matching_eng.Order.{LevelFifo, is_empty}
use hyperliquid_matching_eng.LevelTree.{
  Levels, LevelTree, has_level, for_each_nonempty, cleanup_empty_levels,
}
use hyperliquid_matching_eng.LevelTree.Search.{
  Above, IsMap, has_level-∷_same, has_level-∷_other, has_level-Above,
}

-- An entry that is kept, and one that is dropped.
for_each_nonempty-full :
    (e : Tick × LevelFifo) (es : Levels)
    → is_empty e.1 ≡ false
    → for_each_nonempty (e ∷ es) ≡ e ∷ for_each_nonempty es
unfolding for_each_nonempty
for_each_nonempty-full e es h = rw h refl

for_each_nonempty-bare :
    (e : Tick × LevelFifo) (es : Levels)
    → is_empty e.1 ≡ true
    → for_each_nonempty (e ∷ es) ≡ for_each_nonempty es
unfolding for_each_nonempty
for_each_nonempty-bare e es h = rw h refl

for_each_nonempty-Above : (px : Tick) (es : Levels) → Above px es → Above px (for_each_nonempty es)
for_each_nonempty-Above px [] a = unfold for_each_nonempty in tt
for_each_nonempty-Above px (e ∷ es) a = elim (Bool-cases (is_empty e.1)) [
  | inl bare ↦ rw (for_each_nonempty-bare e es bare) (for_each_nonempty-Above px es a.1)
  | inr full ↦ rw (for_each_nonempty-full e es full) (a.0, for_each_nonempty-Above px es a.1)
]

for_each_nonempty-IsMap : (es : Levels) → IsMap es → IsMap (for_each_nonempty es)
for_each_nonempty-IsMap [] m = unfold for_each_nonempty in tt
for_each_nonempty-IsMap (e ∷ es) m = elim (Bool-cases (is_empty e.1)) [
  | inl bare ↦ rw (for_each_nonempty-bare e es bare) (for_each_nonempty-IsMap es m.1)
  | inr full ↦
      rw (for_each_nonempty-full e es full)
        (for_each_nonempty-Above e.0 es m.0, for_each_nonempty-IsMap es m.1)
]

-- Dropping a bare entry is not seen.
has_level-bare :
    (px : Tick) (e : Tick × LevelFifo) (es : Levels)
    → is_empty e.1 ≡ true
    → Above e.0 es
    → has_level px (e ∷ es) ≡ has_level px es
has_level-bare px e es bare a = elim (ℕ_discrete e.0 px) [
  | yes same ↦
      has_level-∷_same px e es same
      ∙ ground (arith, bare)
      ∙ sym (has_level-Above px e.0 es (omega (arith, same)) a)
  | no other ↦ has_level-∷_other px e es other
]

has_level-for_each_nonempty :
    (px : Tick) (es : Levels) → IsMap es → has_level px (for_each_nonempty es) ≡ has_level px es
has_level-for_each_nonempty px [] m = unfold for_each_nonempty in refl
has_level-for_each_nonempty px (e ∷ es) m = elim (Bool-cases (is_empty e.1)) [
  | inl bare ↦
      rw (for_each_nonempty-bare e es bare)
        (has_level-for_each_nonempty px es m.1 ∙ sym (has_level-bare px e es bare m.0))
  | inr full ↦ rw (for_each_nonempty-full e es full) (elim (ℕ_discrete e.0 px) [
    | yes same ↦
        has_level-∷_same px e (for_each_nonempty es) same ∙ sym (has_level-∷_same px e es same)
    | no other ↦
        has_level-∷_other px e (for_each_nonempty es) other
        ∙ has_level-for_each_nonempty px es m.1
        ∙ sym (has_level-∷_other px e es other)
  ])
]

-- In a map in the order of its prices, `cleanup_empty_levels` keeps the order and, at every
-- price, whether orders rest there.
pub cleanup_empty_levels_lem :
    (t : LevelTree)
    → IsMap t.levels
    → IsMap (cleanup_empty_levels t).levels
      × ((px : Tick) → has_level px (cleanup_empty_levels t).levels ≡ has_level px t.levels)
unfolding cleanup_empty_levels
cleanup_empty_levels_lem t m =
    (for_each_nonempty-IsMap t.levels m, λ px. has_level-for_each_nonempty px t.levels m)
