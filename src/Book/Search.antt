-- ===== src/Book/Search.antt =====
-- The search for the next best price in include/hyperliquid/order_book.h
-- (`refresh_best_after_depletion`): what it finds, and how far it looks.
use hyperliquid_matching_eng.Base.{
  ℕ, zero, suc, ◌+◌, ◌-◌, ◌≤◌, ◌<◌, ◌≡◌, refl, true, false, arith, ◌⊎◌, inl, inr, Bool-cases, subst,
  dec_lt,
}
use hyperliquid_matching_eng.Types.{Tick, Side, bid, ask, empty_bid, empty_ask}
use hyperliquid_matching_eng.PriceLevels.{PriceLevels, has_level, is_valid_price}
use hyperliquid_matching_eng.Book.State.{search_bid, search_ask, empty_of, max_search}

-- The first price is better than the second.
abbrev pub Better : Side → Tick → Tick → Type 0
Better bid px worse = worse < px
Better ask px worse = px < worse

-- The prices less than `reach` ticks behind `current`.
abbrev pub Within : Side → Tick → ℕ → Tick → Type 0
Within bid current reach px = current < px + reach
Within ask current reach px = px < current + reach

-- The band lies strictly between the two sentinels.
pub record IsBand (p : PriceLevels) : Type 0 where
  pub low : empty_bid < p.band.min_tick
  pub high : p.band.max_tick < empty_ask

-- The result of a search behind `current`: the best level that holds orders, if there is one
-- within reach, and else the sentinel.
abbrev pub NextBest : Side → PriceLevels → Tick → ℕ → Tick → Type 0
NextBest s p current reach r =
    ((r ≡ empty_of s)
      × ((px : Tick) → Better s current px → Within s current reach px → has_level p px ≡ false))
    ⊎ ((has_level p r ≡ true)
        × Better s current r
        × ((px : Tick) → Better s current px → Better s px r → has_level p px ≡ false))

pub has_level-of_invalid :
    (p : PriceLevels) (px : Tick) → is_valid_price p px ≡ false → has_level p px ≡ false
unfolding has_level
has_level-of_invalid p px h = ground arith

below_band : (p : PriceLevels) (px : Tick) → px < p.band.min_tick → has_level p px ≡ false
unfolding is_valid_price
below_band p px h = has_level-of_invalid p px (ground arith)

above_band : (p : PriceLevels) (px : Tick) → p.band.max_tick < px → has_level p px ≡ false
unfolding is_valid_price
above_band p px h = has_level-of_invalid p px (ground arith)

valid_iff :
    (p : PriceLevels) (px : Tick)
    → is_valid_price p px ≡ false
    → (px < p.band.min_tick) ⊎ (p.band.max_tick < px)
unfolding is_valid_price
valid_iff p px h = ground arith

module _ (p : PriceLevels) (band : IsBand p) (current : Tick) where
  search_bid-NextBest :
      (n i reach : ℕ)
      → current ≤ p.band.max_tick
      → 0 < i
      → i + n ≡ reach
      → ((px : Tick) → px < current → current < px + i → has_level p px ≡ false)
      → NextBest bid p current reach (search_bid p current n i)
  unfolding search_bid
  search_bid-NextBest zero i reach top hi e seen = inl (refl, λ px h k. seen px h (omega arith))
  search_bid-NextBest (suc n) i reach top hi e seen = elim (dec_lt empty_bid (current - i)) [
    | no end ↦ inl (
      ground arith,
      λ px h k. elim (dec_lt current (px + i)) [
        | yes near ↦ seen px h near
        | no far ↦ below_band p px (omega (arith, band.low))
      ],
    )
    | yes on ↦ elim (Bool-cases (is_valid_price p (current - i))) [
      | inr bad ↦ inl (
        ground arith,
        λ px h k. elim (dec_lt current (px + i)) [
          | yes near ↦ seen px h near
          | no far ↦ below_band p px (omega (arith, valid_iff p (current - i) bad))
        ],
      )
      | inl good ↦ elim (Bool-cases (has_level p (current - i))) [
        | inl held ↦
            let r : search_bid p current (suc n) i ≡ current - i = ground arith in
            rw r (inr (held, omega arith, λ px h k. seen px h (omega arith)))
        | inr bare ↦
            let r : search_bid p current (suc n) i ≡ search_bid p current n (i + 1) =
              ground arith in
            rw r (
              search_bid-NextBest n (i + 1) reach top (omega arith) (omega arith) (λ px h k.
                elim (dec_lt current (px + i)) [
                  | yes near ↦ seen px h near
                  | no far ↦
                      let same : current - i ≡ px = omega arith in
                      subst (λ q. has_level p q ≡ false) same bare
                ]))
      ]
    ]
  ]

  search_ask-NextBest :
      (n i reach : ℕ)
      → p.band.min_tick ≤ current
      → 0 < i
      → i + n ≡ reach
      → ((px : Tick) → current < px → px < current + i → has_level p px ≡ false)
      → NextBest ask p current reach (search_ask p current n i)
  unfolding search_ask
  search_ask-NextBest zero i reach top hi e seen = inl (refl, λ px h k. seen px h (omega arith))
  search_ask-NextBest (suc n) i reach top hi e seen = elim (dec_lt (current + i) empty_ask) [
    | no end ↦ inl (
      ground arith,
      λ px h k. elim (dec_lt px (current + i)) [
        | yes near ↦ seen px h near
        | no far ↦ above_band p px (omega (arith, band.high))
      ],
    )
    | yes on ↦ elim (Bool-cases (is_valid_price p (current + i))) [
      | inr bad ↦ inl (
        ground arith,
        λ px h k. elim (dec_lt px (current + i)) [
          | yes near ↦ seen px h near
          | no far ↦ above_band p px (omega (arith, valid_iff p (current + i) bad))
        ],
      )
      | inl good ↦ elim (Bool-cases (has_level p (current + i))) [
        | inl held ↦
            let r : search_ask p current (suc n) i ≡ current + i = ground arith in
            rw r (inr (held, omega arith, λ px h k. seen px h (omega arith)))
        | inr bare ↦
            let r : search_ask p current (suc n) i ≡ search_ask p current n (i + 1) =
              ground arith in
            rw r (
              search_ask-NextBest n (i + 1) reach top (omega arith) (omega arith) (λ px h k.
                elim (dec_lt px (current + i)) [
                  | yes near ↦ seen px h near
                  | no far ↦
                      let same : current + i ≡ px = omega arith in
                      subst (λ q. has_level p q ≡ false) same bare
                ]))
      ]
    ]
  ]

  -- A search with all its rounds, from the best price of its side.
  pub search_bid_lem :
      current ≤ p.band.max_tick
      → NextBest bid p current (max_search + 1) (search_bid p current max_search 1)
  search_bid_lem top =
      search_bid-NextBest max_search 1 (max_search + 1) top (omega arith) (omega arith)
        (λ px h k. absurd (omega arith))

  pub search_ask_lem :
      p.band.min_tick ≤ current
      → NextBest ask p current (max_search + 1) (search_ask p current max_search 1)
  search_ask_lem bottom =
      search_ask-NextBest max_search 1 (max_search + 1) bottom (omega arith) (omega arith)
        (λ px h k. absurd (omega arith))
