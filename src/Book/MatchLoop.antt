-- ===== src/Book/MatchLoop.antt =====
-- `match_against_side` (include/hyperliquid/order_book.h) from its first round to its last.
use hyperliquid_matching_eng.Base.{
  ℕ, zero, suc, ◌+◌, ◌<◌, ◌≡◌, arith, none, some, inl, inr, Bool-cases, Option-cases, subst, ◌∙◌,
  length, ap,
}
use hyperliquid_matching_eng.Base.Int.{
  ℤ, ◌+ℤ◌, ◌-ℤ◌, ◌≤ℤ◌, ltb_ℤ, 0ℤ, +ℤ_parts, -ℤ_parts, eq_of_parts, Same-of_eq, le-of_ltb_ℤ,
}
use hyperliquid_matching_eng.Types.{Quantity, Side}
use hyperliquid_matching_eng.PriceLevels.{PriceLevels, best_level_ptr}
use hyperliquid_matching_eng.FlatMap.Counting.{IsTable}
use hyperliquid_matching_eng.Book.State.{OrderBook, levels_of, best_of, empty_of}
use hyperliquid_matching_eng.Book.Matching.{
  Incoming, Round, done, again, match_round, match_loop, match_against_side,
}
use hyperliquid_matching_eng.Book.Sides.{
  IsSide, IsMarked, prices_left, has_level-valid, valid-idx, prices_left-le-length,
}
use hyperliquid_matching_eng.Book.Matched.{Matched, Matched-refl, Matched-trans}
use hyperliquid_matching_eng.Book.Filling.{IsStopped}
use hyperliquid_matching_eng.Book.Rounds.{RoundOk, match_level-RoundOk}

zero_right : (q : ℤ) → q ≡ q +ℤ 0ℤ
zero_right q = eq_of_parts _ _ (omega (arith, +ℤ_parts))

minus_zero : (q : ℤ) → q -ℤ 0ℤ ≡ q
minus_zero q = eq_of_parts _ _ (omega (arith, -ℤ_parts))

match_round-RoundOk :
    (s : Side) (c : Incoming) (q tf : Quantity) (b : OrderBook)
    → 0ℤ ≤ℤ q
    → IsSide s (levels_of s b)
    → IsTable b.id_index
    → (r : Round) × (match_round s c q tf b ≡ some r) × RoundOk s c q tf b r
unfolding match_round
match_round-RoundOk s c q tf b hq v w = elim (Bool-cases (ltb_ℤ 0ℤ q)) [
  | inr used ↦ (
    done q tf b,
    ground arith,
    (
      0ℤ,
      zero_right tf,
      Matched-refl s c.px_limit q b hq v w,
      inl (rw (minus_zero q) (le-of_ltb_ℤ 0ℤ q used)),
    ),
  )
  | inl more ↦ elim (Option-cases (best_level_ptr (levels_of s b) s)) [
    | inl null ↦ (
      done q tf b,
      ground arith,
      (
        0ℤ,
        zero_right tf,
        Matched-refl s c.px_limit q b hq v w,
        inr (inl (no_best s (levels_of s b) v.marked null)),
      ),
    )
    | inr (i, ptr) ↦
        let (r, e, ok) = match_level-RoundOk s c q tf i b hq v w ptr in (r, ground arith, ok)
  ]
]
  where
    no_best :
        (s : Side) (p : PriceLevels)
        → IsMarked s p
        → best_level_ptr p s ≡ none
        → best_of s p ≡ empty_of s
    no_best s p (inl m) e = m.0
    no_best s p (inr m) e =
        let i = valid-idx p (best_of s p) (has_level-valid p (best_of s p) (m.0)) in
        absurd (ground arith)

-- What the whole loop returns.
abbrev pub Ends : Side → Incoming → Quantity → Quantity → OrderBook → ℕ → Type 0
Ends s c q tf b fuel =
    (traded : Quantity) × (b' : OrderBook) × (match_loop s c fuel q tf b ≡ some (tf +ℤ traded, b'))
    × Matched s c.px_limit q b traded b'
    × IsStopped s c (q -ℤ traded) b'

match_loop-again :
    (s : Side) (c : Incoming) (fuel : ℕ) (q tf q' tf' : Quantity) (b b' : OrderBook)
    → match_round s c q tf b ≡ some (again q' tf' b')
    → match_loop s c (suc fuel) q tf b ≡ match_loop s c fuel q' tf' b'
unfolding match_loop
match_loop-again s c fuel q tf q' tf' b b' e = rw (e, match_loop)

pub match_loop-done :
    (s : Side) (c : Incoming) (fuel : ℕ) (q tf q' tf' : Quantity) (b b' : OrderBook)
    → match_round s c q tf b ≡ some (done q' tf' b')
    → match_loop s c (suc fuel) q tf b ≡ some (tf', b')
unfolding match_loop
match_loop-done s c fuel q tf q' tf' b b' e = rw (e, match_loop)

match_loop-Ends :
    (s : Side) (c : Incoming) (fuel : ℕ) (q tf : Quantity) (b : OrderBook)
    → 0ℤ ≤ℤ q
    → IsSide s (levels_of s b)
    → IsTable b.id_index
    → prices_left s (levels_of s b) < fuel
    → Ends s c q tf b fuel
match_loop-Ends s c zero q tf b hq v w lt = elim lt [ ]
match_loop-Ends s c (suc fuel) q tf b hq v w lt =
    next (match_round-RoundOk s c q tf b hq v w)
      (λ q' tf' b' h v' w' lt'. match_loop-Ends s c fuel q' tf' b' h v' w' lt')
  where
    next :
        (r : Round) × (match_round s c q tf b ≡ some r) × RoundOk s c q tf b r
        → ((q' tf' : Quantity) (b' : OrderBook)
            → 0ℤ ≤ℤ q'
            → IsSide s (levels_of s b')
            → IsTable b'.id_index
            → prices_left s (levels_of s b') < fuel
            → Ends s c q' tf' b' fuel)
        → Ends s c q tf b (suc fuel)
    next (done q' tf' b', e, (t, total, m, stop)) rec =
        (t, b', match_loop-done s c fuel q tf q' tf' b b' e ∙ ap (λ x. some (x, b')) total, m, stop)
    next (again q' tf' b', e, (t, total, m, rest, less)) rec =
        let (u, b'', e', n, stop) =
          rec q' tf' b' (rw rest (omega (arith, -ℤ_parts, m.at_most))) m.side m.table
            (omega arith) in
        (
          t +ℤ u,
          b'',
          match_loop-again s c fuel q tf q' tf' b b' e
              ∙ e'
              ∙ ap (λ x. some (x, b''))
                  (eq_of_parts _ _ (omega (arith, +ℤ_parts, Same-of_eq _ _ total))),
          Matched-trans s c.px_limit q t u b b' b'' m
              (subst (λ x. Matched s c.px_limit x b' u b'') rest n),
          subst (λ x. IsStopped s c x b'')
              (eq_of_parts _ _ (omega (arith, +ℤ_parts, -ℤ_parts, Same-of_eq _ _ rest))) stop,
        )

-- On a well-formed side with a well-formed index, and for a quantity that is not negative,
-- `match_against_side` returns. What it returns is not negative and at most the quantity; it has
-- been taken from what rests on the side; the trades have prices within the limit and, where
-- trades are reported, add up to it. The nodes of the orders that are gone are in the pool. The
-- side stays well formed, the other side is as it was, and matching has stopped because the
-- quantity is used up, the side is empty, its best price is past the limit, or self-trade
-- prevention is on.
pub match_against_side_lem :
    (s : Side) (c : Incoming) (q : Quantity) (b : OrderBook)
    → 0ℤ ≤ℤ q
    → IsSide s (levels_of s b)
    → IsTable b.id_index
    → (traded : Quantity) × (b' : OrderBook) × (match_against_side s c q b ≡ some (traded, b'))
      × Matched s c.px_limit q b traded b'
      × IsStopped s c (q -ℤ traded) b'
unfolding match_against_side
match_against_side_lem s c q b hq v w =
    let (t, b', e, m, stop) =
      match_loop-Ends s c (length (levels_of s b).levels + 1) q 0ℤ b hq v w
        (omega (arith, prices_left-le-length s (levels_of s b) v)) in
    (t, b', e ∙ ap (λ x. some (x, b')) (eq_of_parts _ _ (omega (arith, +ℤ_parts))), m, stop)
