-- ===== src/Book/Rounds.antt =====
-- One round of `match_against_side` (include/hyperliquid/order_book.h), and the loop over them.
use mathlib.Core.Bool.{false≢true}
use hyperliquid_matching_eng.Base.{
  ℕ, ◌<◌, ◌≡◌, refl, true, false, arith, some, inl, inr, ap, List, [], ◌∷◌, Bool-cases, subst, sym,
  ◌∙◌, get_elem?, if◌then◌else◌,
}
use hyperliquid_matching_eng.Base.Int.{
  ℤ, ◌+ℤ◌, ◌-ℤ◌, ◌≤ℤ◌, ltb_ℤ, 0ℤ, +ℤ_parts, -ℤ_parts, eq_of_parts, Same-of_eq, lt-of_ltb_ℤ,
  le-of_ltb_ℤ,
}
use hyperliquid_matching_eng.Types.{Quantity, Side, bid, ask}
use hyperliquid_matching_eng.Order.{Order, LevelFifo, is_empty, is_nil}
use hyperliquid_matching_eng.PriceLevels.{PriceLevels, best_level_ptr}
use hyperliquid_matching_eng.FlatMap.Counting.{IsTable}
use hyperliquid_matching_eng.Book.State.{
  OrderBook, levels_of, best_of, refresh_levels, refresh_best_after_depletion,
}
use hyperliquid_matching_eng.Book.Matching.{
  Incoming, Taker, Fill, Round, done, again, past_limit, taker_at, start_fill, fill_level,
  match_level,
}
use hyperliquid_matching_eng.Book.Consume.{consume, eligible, consume-rest-add-traded}
use hyperliquid_matching_eng.Book.Consume.Priority.{eligible-consume}
use hyperliquid_matching_eng.Book.Fills.{fill_level_refines}
use hyperliquid_matching_eng.Book.Sides.{
  IsSide, refresh_levels-IsRefreshed, prices_left, prices_left-IsRefreshed, Recedes-refl,
  IsRefreshed-Recedes,
}
use hyperliquid_matching_eng.Book.Matched.{Matched, Matched-refl}
use hyperliquid_matching_eng.Book.Filled.{
  IsMarked-Best, filled, IsArray-filled, IsMarked-filled, valid-filled, prices_left-filled,
  Recedes-filled, IsSide-IsRefreshed,
}
use hyperliquid_matching_eng.Book.Filling.{IsStopped, with_fill, fill-IsLevel, fill-Matched}

-- What a round hands on: the book after some trades, and at the end the reason to stop, or a best
-- price further on.
abbrev pub RoundOk : Side → Incoming → Quantity → Quantity → OrderBook → Round → Type 0
RoundOk s c q tf b (done rest total b') =
    (traded : Quantity) × (total ≡ tf +ℤ traded)
    × Matched s c.px_limit q b traded b'
    × IsStopped s c (q -ℤ traded) b'
RoundOk s c q tf b (again rest total b') =
    (traded : Quantity) × (total ≡ tf +ℤ traded)
    × Matched s c.px_limit q b traded b'
    × (rest ≡ q -ℤ traded)
    × (prices_left s (levels_of s b') < prices_left s (levels_of s b))

module _ (s : Side) (c : Incoming) (q tf : Quantity) (i : ℕ) (b : OrderBook) (l : LevelFifo)
    (here : get_elem? (levels_of s b).levels i ≡ some l) (holds : is_empty l ≡ false) where
  match_level-past :
      past_limit s (best_of s (levels_of s b)) c.px_limit ≡ true
      → match_level s c q tf i b ≡ some (done q tf b)
  unfolding match_level
  match_level-past past = rw (here, holds, past)

  pub match_level-fills :
      (g : Fill)
      → past_limit s (best_of s (levels_of s b)) c.px_limit ≡ false
      → fill_level (taker_at c b (best_of s (levels_of s b))) l.orders (start_fill l q tf b)
        ≡ some g
      → match_level s c q tf i b
        ≡ some (
            if is_empty g.level
            then again g.qty g.total_filled (
                refresh_best_after_depletion s (with_fill s (filled (levels_of s b) i g.level) g b))
            else done g.qty g.total_filled (with_fill s (filled (levels_of s b) i g.level) g b))
  unfolding match_level
  match_level-fills g lim eq = rw (here, holds, lim, eq)

eligible_all : (t : Taker) (os : List Order) → t.enable_stp ≡ false → eligible t os ≡ os
unfolding eligible
eligible_all t [] h = refl
eligible_all t (o ∷ os) h = ground (arith, eligible_all t os h)

-- Without self-trade prevention orders stay at the best price only when the quantity is used up.
IsStopped-at :
    (s : Side) (c : Incoming) (q : Quantity) (t : Taker) (os : List Order) (b : OrderBook)
    → t.enable_stp ≡ c.enable_stp
    → is_nil (consume t q os).left ≡ false
    → IsStopped s c (q -ℤ (consume t q os).traded) b
IsStopped-at s c q t os b same holds = elim (Bool-cases c.enable_stp) [
  | inl on ↦ inr (inr (inr on))
  | inr off ↦ elim (Bool-cases (ltb_ℤ 0ℤ (consume t q os).rest)) [
    | inl more ↦
        let e = eligible-consume t q os (lt-of_ltb_ℤ 0ℤ (consume t q os).rest more) in
        let f = eligible_all t (consume t q os).left (same ∙ off) in
        absurd (false≢true (sym holds ∙ ap (λ xs. is_nil xs) (sym f ∙ e)))
    | inr used ↦ inl (
        omega (
          arith,
          +ℤ_parts,
          -ℤ_parts,
          le-of_ltb_ℤ 0ℤ (consume t q os).rest used,
          Same-of_eq _ _ (consume-rest-add-traded t q os),
        ))
  ]
]

refresh-with_fill :
    (s : Side) (p : PriceLevels) (g : Fill) (b : OrderBook)
    → refresh_best_after_depletion s (with_fill s p g b) ≡ with_fill s (refresh_levels s p) g b
unfolding refresh_best_after_depletion
refresh-with_fill bid p g b = refl
refresh-with_fill ask p g b = refl

levels_of-with_fill :
    (s : Side) (p : PriceLevels) (g : Fill) (b : OrderBook) → levels_of s (with_fill s p g b) ≡ p
levels_of-with_fill bid p g b = refl
levels_of-with_fill ask p g b = refl

rest-qty : (q r t : ℤ) → r +ℤ t ≡ q → r ≡ q -ℤ t
rest-qty q r t e = eq_of_parts _ _ (omega (arith, +ℤ_parts, -ℤ_parts, Same-of_eq _ _ e))

-- A round over the best level ends, and hands on what `RoundOk` says.
pub match_level-RoundOk :
    (s : Side) (c : Incoming) (q tf : Quantity) (i : ℕ) (b : OrderBook)
    → 0ℤ ≤ℤ q
    → IsSide s (levels_of s b)
    → IsTable b.id_index
    → best_level_ptr (levels_of s b) s ≡ some i
    → (r : Round) × (match_level s c q tf i b ≡ some r) × RoundOk s c q tf b r
match_level-RoundOk s c q tf i b hq v w ptr =
    let p = levels_of s b in
    let best = IsMarked-Best s p i v.marked ptr in
    elim (Bool-cases (past_limit s (best_of s p) c.px_limit)) [
      | inl past ↦ (
        done q tf b,
        match_level-past s c q tf i b best.level best.here best.holds past,
        (
          0ℤ,
          eq_of_parts _ _ (omega (arith, +ℤ_parts)),
          Matched-refl s c.px_limit q b hq v w,
          inr (inr (inl past)),
        ),
      )
      | inr lim ↦
          let t = taker_at c b (best_of s p) in
          let os = best.level.orders in
          let f = start_fill best.level q tf b in
          let lv = v.array.queues i best.level best.here in
          let (g, eq, u) = fill_level_refines t f lv.distinct w in
          let e = match_level-fills s c q tf i b best.level best.here best.holds g lim eq in
          let p' = filled p i g.level in
          let arr = IsArray-filled p i g.level v.array (fill-IsLevel t q f g lv u) in
          elim (Bool-cases (is_empty g.level)) [
            | inl out ↦
                let r =
                  refresh_levels-IsRefreshed s p' arr.band
                    (valid-filled s p i g.level best.valid) in
                let q' = refresh_levels s p' in
                let b' = with_fill s q' g b in
                (
                  again g.qty g.total_filled b',
                  e
                      ∙ rw out (
                          ap (λ x. some (again g.qty g.total_filled x))
                            (refresh-with_fill s p' g b)),
                  (
                    (consume t q os).traded,
                    u.filled,
                    fill-Matched c q tf b i g q' hq s best.level best.here lv lim u
                        (IsSide-IsRefreshed s p' q' arr r) r.levels r.band
                        (Recedes-filled s p q' i g.level (
                          IsRefreshed-Recedes s p' q' arr.band
                            (valid-filled s p i g.level best.valid) r)),
                    u.qty ∙ rest-qty q _ _ (consume-rest-add-traded t q os),
                    rw (levels_of-with_fill s q' g b) (
                        omega (
                          arith,
                          prices_left-IsRefreshed s p' q' arr.band
                              (valid-filled s p i g.level best.valid) r,
                          prices_left-filled s p i g.level,
                        )),
                  ),
                )
            | inr holds ↦
                let side : IsSide s p' = record {
                  array = arr;
                  marked = IsMarked-filled s p i g.level best ptr holds;
                } in
                (
                  done g.qty g.total_filled (with_fill s p' g b),
                  e ∙ rw holds,
                  (
                    (consume t q os).traded,
                    u.filled,
                    fill-Matched c q tf b i g p' hq s best.level best.here lv lim u side refl refl
                        (Recedes-filled s p p' i g.level (Recedes-refl s p')),
                    IsStopped-at s c q t os _ refl
                        (subst (λ xs. is_nil xs ≡ false) (u.orders) holds),
                  ),
                )
          ]
    ]
