-- ===== src/LevelTree/Search.antt =====
-- The searches of include/hyperliquid/price_levels_avl.h for the next level that holds orders.
use hyperliquid_matching_eng.Base.{
  ◌<◌, ◌≤◌, ◌≡◌, ◌≢◌, refl, true, false, arith, [], ◌∷◌, Option, none, some, ◌⊎◌, inl, inr, dec_lt,
  not, ◌&&◌, Option-cases, Bool-cases, ◌∙◌, sym, ltb, if◌then◌else◌, ℕ_discrete, subst,
}
use hyperliquid_matching_eng.Types.{Tick, empty_bid, empty_ask}
use hyperliquid_matching_eng.Order.{LevelFifo, is_empty}
use hyperliquid_matching_eng.LevelTree.{
  Levels, find, has_level, first_above, last_below, find_next_ask, find_next_bid,
}

-- Every price is above `px`.
abbrev pub Above : Tick → Levels → Type 0
Above px [] = Unit
Above px (e ∷ es) = (px < e.0) × Above px es

-- The prices rise.
abbrev pub IsMap : Levels → Type 0
IsMap [] = Unit
IsMap (e ∷ es) = Above e.0 es × IsMap es

-- Nothing rests above `current` and below `px`.
abbrev pub NoneBetween : Tick → Tick → Levels → Type 0
NoneBetween current px es = (p : Tick) → current < p → p < px → has_level p es ≡ false

pub has_level-∷_same :
    (px : Tick) (e : Tick × LevelFifo) (es : Levels)
    → e.0 ≡ px
    → has_level px (e ∷ es) ≡ not (is_empty e.1)
unfolding has_level find
has_level-∷_same px e es same = ground (arith, same)

pub has_level-∷_other :
    (px : Tick) (e : Tick × LevelFifo) (es : Levels)
    → e.0 ≢ px
    → has_level px (e ∷ es) ≡ has_level px es
unfolding has_level find
has_level-∷_other px e es other = ground (arith, other)

pub has_level-Above :
    (px : Tick) (k : Tick) (es : Levels) → px ≤ k → Above k es → has_level px es ≡ false
has_level-Above px k [] le a = unfold has_level find in refl
has_level-Above px k (e ∷ es) le a =
    has_level-∷_other px e es (λ same. absurd (omega (arith, same, a.0)))
    ∙ has_level-Above px k es le a.1

-- The step of the ask search.
first_above-skip :
    (c : Tick) (e : Tick × LevelFifo) (es : Levels)
    → (ltb c e.0 && not (is_empty e.1)) ≡ false
    → first_above c (e ∷ es) ≡ first_above c es
unfolding first_above
first_above-skip c e es h = rw h refl

first_above-take :
    (c : Tick) (e : Tick × LevelFifo) (es : Levels)
    → (ltb c e.0 && not (is_empty e.1)) ≡ true
    → first_above c (e ∷ es) ≡ some e.0
unfolding first_above
first_above-take c e es h = rw h refl

-- What the search answers.
abbrev pub Answer : Tick → Levels → Option Tick → Type 0
Answer c es none = (p : Tick) → c < p → has_level p es ≡ false
Answer c es (some px) = (c < px) × (has_level px es ≡ true) × NoneBetween c px es

skipped :
    (c p : Tick) (e : Tick × LevelFifo) (es : Levels)
    → (ltb c e.0 && not (is_empty e.1)) ≡ false
    → Above e.0 es
    → c < p
    → has_level p (e ∷ es) ≡ has_level p es
skipped c p e es h a lt = elim (ℕ_discrete e.0 p) [
  | yes same ↦
      has_level-∷_same p e es same
      ∙ ground (arith, h, same)
      ∙ sym (has_level-Above p e.0 es (omega (arith, same)) a)
  | no other ↦ has_level-∷_other p e es other
]

Answer-skip :
    (c : Tick) (e : Tick × LevelFifo) (es : Levels) (r : Option Tick)
    → (ltb c e.0 && not (is_empty e.1)) ≡ false
    → Above e.0 es
    → Answer c es r
    → Answer c (e ∷ es) r
Answer-skip c e es none h a answer = λ p lt. skipped c p e es h a lt ∙ answer p lt
Answer-skip c e es (some px) h a (lt, full, between) = (
  lt,
  skipped c px e es h a lt ∙ full,
  λ p low high. skipped c p e es h a low ∙ between p low high,
)

Answer-take :
    (c : Tick) (e : Tick × LevelFifo) (es : Levels)
    → (ltb c e.0 && not (is_empty e.1)) ≡ true
    → Above e.0 es
    → Answer c (e ∷ es) (some e.0)
Answer-take c e es h a = (
  ground (arith, h),
  has_level-∷_same e.0 e es refl ∙ ground (arith, h),
  λ p low high.
      has_level-∷_other p e es (λ same. absurd (omega (arith, same, high)))
      ∙ has_level-Above p e.0 es (omega (arith, high)) a,
)

first_above_lem : (c : Tick) (es : Levels) → IsMap es → Answer c es (first_above c es)
first_above_lem c [] m = unfold first_above in λ p lt. unfold has_level find in refl
first_above_lem c (e ∷ es) m = elim (Bool-cases (ltb c e.0 && not (is_empty e.1))) [
  | inl take ↦ rw (first_above-take c e es take) (Answer-take c e es take m.0)
  | inr skip ↦
      rw (first_above-skip c e es skip)
        (Answer-skip c e es (first_above c es) skip m.0 (first_above_lem c es m.1))
]

-- In a map in the order of its prices, and from a price that is not the sentinel, `find_next_ask`
-- answers the sentinel when nothing rests above the price, and else the nearest price above at
-- which something rests.
pub find_next_ask_lem :
    (c : Tick) (es : Levels)
    → IsMap es
    → c ≢ empty_ask
    → ((find_next_ask c es ≡ empty_ask) × ((p : Tick) → c < p → has_level p es ≡ false))
      ⊎ ((c < find_next_ask c es)
          × (has_level (find_next_ask c es) es ≡ true)
          × NoneBetween c (find_next_ask c es) es)
find_next_ask_lem c es m ne = elim (Option-cases (first_above c es)) [
  | inl out ↦ inl (
    unfold find_next_ask in ground (arith, out, ne),
    subst (Answer c es) out (first_above_lem c es m),
  )
  | inr (px, at) ↦
      let is : find_next_ask c es ≡ px = unfold find_next_ask in ground (arith, at, ne) in
      inr (rw is (subst (Answer c es) at (first_above_lem c es m)))
]

-- The same below a price.
abbrev pub AnswerBelow : Tick → Levels → Option Tick → Type 0
AnswerBelow c es none = (p : Tick) → p < c → has_level p es ≡ false
AnswerBelow c es (some px) = (px < c) × (has_level px es ≡ true) × NoneBetween px c es

last_below-some :
    (c : Tick) (e : Tick × LevelFifo) (es : Levels) (px : Tick)
    → last_below c es ≡ some px
    → last_below c (e ∷ es) ≡ some px
unfolding last_below
last_below-some c e es px at = rw (at, last_below) refl

last_below-none :
    (c : Tick) (e : Tick × LevelFifo) (es : Levels)
    → last_below c es ≡ none
    → last_below c (e ∷ es) ≡ (if ltb e.0 c && not (is_empty e.1) then some e.0 else none)
unfolding last_below
last_below-none c e es at = rw (at, last_below) refl

AnswerBelow-later :
    (c : Tick) (e : Tick × LevelFifo) (es : Levels) (px : Tick)
    → Above e.0 es
    → AnswerBelow c es (some px)
    → AnswerBelow c (e ∷ es) (some px)
AnswerBelow-later c e es px a (lt, full, between) =
    let above : e.0 < px = elim (dec_lt e.0 px) [
      | yes h ↦ h
      | no h ↦ absurd (ground (arith, full, has_level-Above px e.0 es (omega (arith, h)) a))
    ] in
    (
      lt,
      has_level-∷_other px e es (λ same. absurd (omega (arith, same, above))) ∙ full,
      λ p low high.
          has_level-∷_other p e es (λ same. absurd (omega (arith, same, above, low)))
          ∙ between p low high,
    )

AnswerBelow-here :
    (c : Tick) (e : Tick × LevelFifo) (es : Levels)
    → AnswerBelow c es none
    → AnswerBelow c (e ∷ es) (if ltb e.0 c && not (is_empty e.1) then some e.0 else none)
AnswerBelow-here c e es bare = elim (Bool-cases (ltb e.0 c && not (is_empty e.1))) [
  | inl take ↦ rw take (
    ground (arith, take),
    has_level-∷_same e.0 e es refl ∙ ground (arith, take),
    λ p low high.
        has_level-∷_other p e es (λ same. absurd (omega (arith, same, low))) ∙ bare p high,
  )
  | inr skip ↦ rw skip λ p lt. elim (ℕ_discrete e.0 p) [
    | yes same ↦ has_level-∷_same p e es same ∙ ground (arith, skip, same, lt)
    | no other ↦ has_level-∷_other p e es other ∙ bare p lt
  ]
]

last_below_lem : (c : Tick) (es : Levels) → IsMap es → AnswerBelow c es (last_below c es)
last_below_lem c [] m = unfold last_below in λ p lt. unfold has_level find in refl
last_below_lem c (e ∷ es) m =
    let rest = last_below_lem c es m.1 in
    elim (Option-cases (last_below c es)) [
      | inl out ↦
          subst (AnswerBelow c (e ∷ es)) (sym (last_below-none c e es out))
            (AnswerBelow-here c e es (subst (AnswerBelow c es) out rest))
      | inr (px, at) ↦
          subst (AnswerBelow c (e ∷ es)) (sym (last_below-some c e es px at))
            (AnswerBelow-later c e es px m.0 (subst (AnswerBelow c es) at rest))
    ]

-- In a map in the order of its prices, and from a price that is not the sentinel, `find_next_bid`
-- answers the sentinel when nothing rests below the price, and else the nearest price below at
-- which something rests.
pub find_next_bid_lem :
    (c : Tick) (es : Levels)
    → IsMap es
    → c ≢ empty_bid
    → ((find_next_bid c es ≡ empty_bid) × ((p : Tick) → p < c → has_level p es ≡ false))
      ⊎ ((find_next_bid c es < c)
          × (has_level (find_next_bid c es) es ≡ true)
          × NoneBetween (find_next_bid c es) c es)
find_next_bid_lem c es m ne = elim (Option-cases (last_below c es)) [
  | inl out ↦ inl (
    unfold find_next_bid in ground (arith, out, ne),
    subst (AnswerBelow c es) out (last_below_lem c es m),
  )
  | inr (px, at) ↦
      let is : find_next_bid c es ≡ px = unfold find_next_bid in ground (arith, at, ne) in
      inr (rw is (subst (AnswerBelow c es) at (last_below_lem c es m)))
]
