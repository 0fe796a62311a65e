-- ===== src/Book/Liquidity.antt =====
-- What the liquidity check of fill-or-kill orders in include/hyperliquid/order_book.h finds, against
-- the quantity that rests within the limit.
use hyperliquid_matching_eng.Base.{
  ℕ, zero, suc, ◌+◌, ◌≡◌, refl, sym, ap, ◌∙◌, subst, arith, Bool, true, false, not, ◌&&◌, List, [],
  ◌∷◌, some, some_inj, get_elem?, if◌then◌else◌, ltb, inl, inr, Bool-cases, ◌==◌,
}
use hyperliquid_matching_eng.Base.Int.{
  ◌+ℤ◌, ◌≤ℤ◌, ◌<ℤ◌, 0ℤ, ltb_ℤ, leb_ℤ, +ℤ_parts, sum_ℤ, Same-of_eq,
}
use hyperliquid_matching_eng.Types.{Tick, Quantity, Timestamp, Side, bid, ask}
use hyperliquid_matching_eng.Command.{OrderCommand, exec_result}
use hyperliquid_matching_eng.Order.{Order, LevelFifo, open_qty}
use hyperliquid_matching_eng.Order.Laws.{AllOpen, IsLevel}
use hyperliquid_matching_eng.PriceLevels.{PriceLevels, has_level, is_valid_price}
use hyperliquid_matching_eng.Book.State.{OrderBook, levels_of, best_of, empty_of, opposite}
use hyperliquid_matching_eng.Book.Matching.{
  past_limit, add_level, walk_ends, walk_step, walk, max_steps, check_fok_liquidity,
}
use hyperliquid_matching_eng.Book.Submit.{submit_limit, is_fok}
use hyperliquid_matching_eng.Book.Erasing.{get_level-slot, slot_of}
use hyperliquid_matching_eng.Book.Takers.{
  IsBook, IsBook-side, Announced, killed_lem, get_level-of_has_level,
}

-- What rests at the prices that pass a test, from the price `px` of the first level up.
unfoldable pub quantity_at : (Tick → Bool) → Tick → List LevelFifo → Quantity
quantity_at f px [] = 0ℤ
quantity_at f px (l ∷ ls) = (if f px then l.total_qty else 0ℤ) +ℤ quantity_at f (px + 1) ls

abbrev pub within : Side → Tick → Tick → Bool
within s px_limit px = not (past_limit s px px_limit)

-- What rests on a side within the limit of an order.
abbrev pub liquidity : Side → PriceLevels → Tick → Quantity
liquidity s p px_limit = quantity_at (within s px_limit) p.band.min_tick p.levels

abbrev AllFull : List LevelFifo → Type 0
AllFull [] = Unit {0}
AllFull (l ∷ ls) = (0ℤ ≤ℤ l.total_qty) × AllFull ls

open_qty-pos : (os : List Order) → AllOpen os → 0ℤ ≤ℤ open_qty os
unfolding sum_ℤ
open_qty-pos [] v = omega arith
open_qty-pos (o ∷ os) v =
    let rest = open_qty-pos os v.1 in let first = v.0 in omega (arith, +ℤ_parts, rest, first)

AllFull-of_queues :
    (ls : List LevelFifo)
    → ((i : ℕ) (l : LevelFifo) → get_elem? ls i ≡ some l → IsLevel l)
    → AllFull ls
AllFull-of_queues [] v = tt
AllFull-of_queues (l ∷ ls) v =
    let w = v 0 l refl in
    (
      subst (λ q. 0ℤ ≤ℤ q) (sym w.total) (open_qty-pos l.orders w.all_open),
      AllFull-of_queues ls (λ i. v (suc i)),
    )

pick-le :
    (b c : Bool) (q : Quantity)
    → 0ℤ ≤ℤ q
    → (b ≡ true → c ≡ true)
    → (if b then q else 0ℤ) ≤ℤ (if c then q else 0ℤ)
pick-le false false q v h = omega arith
pick-le false true q v h = v
pick-le true false q v h = let e = h refl in absurd (ground arith)
pick-le true true q v h = omega arith

module _ (f g : Tick → Bool) (more : (q : Tick) → f q ≡ true → g q ≡ true) where
  quantity_at-mono :
      (px : Tick) (ls : List LevelFifo) → AllFull ls → quantity_at f px ls ≤ℤ quantity_at g px ls
  unfolding quantity_at
  quantity_at-mono px [] v = omega arith
  quantity_at-mono px (l ∷ ls) v =
      let rest = quantity_at-mono (px + 1) ls v.1 in
      let first = pick-le (f px) (g px) l.total_qty v.0 (more px) in
      omega (arith, +ℤ_parts, rest, first)

  -- A price more passes the test.
  quantity_at-add :
      (px k : Tick) (ls : List LevelFifo) (i : ℕ) (l : LevelFifo)
      → AllFull ls
      → get_elem? ls i ≡ some l
      → px + i ≡ k
      → f k ≡ false
      → g k ≡ true
      → quantity_at f px ls +ℤ l.total_qty ≤ℤ quantity_at g px ls
  unfolding quantity_at
  quantity_at-add px k [] i l v h e out inside = cc
  quantity_at-add px k (x ∷ ls) zero l v h e out inside =
      let here : px ≡ k = omega (arith, e) in
      let rest = quantity_at-mono (px + 1) ls v.1 in
      let same = Same-of_eq _ _ (ap (λ (z : LevelFifo). z.total_qty) (some_inj h)) in
      let f_no : f px ≡ false = ap f here ∙ out in
      let g_yes : g px ≡ true = ap g here ∙ inside in
      rw (f_no, g_yes) (omega (arith, +ℤ_parts, rest, same))
  quantity_at-add px k (x ∷ ls) (suc i) l v h e out inside =
      let rest = quantity_at-add (px + 1) k ls i l v.1 h (omega (arith, e)) out inside in
      let first = pick-le (f px) (g px) x.total_qty v.0 (more px) in
      omega (arith, +ℤ_parts, rest, first)

quantity_at-pos :
    (f : Tick → Bool) (px : Tick) (ls : List LevelFifo) → AllFull ls → 0ℤ ≤ℤ quantity_at f px ls
unfolding quantity_at
quantity_at-pos f px [] v = omega arith
quantity_at-pos f px (l ∷ ls) v =
    let rest = quantity_at-pos f (px + 1) ls v.1 in
    let first : 0ℤ ≤ℤ (if f px then l.total_qty else 0ℤ) = elim (Bool-cases (f px)) [
      | inl in_test ↦ rw in_test v.0
      | inr left_out ↦ rw left_out (omega arith)
    ] in
    omega (arith, +ℤ_parts, rest, first)

-- The prices that the walk has been at when it comes to `px`.
abbrev passed : Side → Tick → Tick → Bool
passed ask px q = ltb q px
passed bid px q = ltb px q

abbrev seen : Side → Tick → Tick → Tick → Bool
seen s px_limit px q = passed s px q && within s px_limit q

seen-within :
    (s : Side) (px_limit px q : Tick) → seen s px_limit px q ≡ true → within s px_limit q ≡ true
seen-within bid px_limit px q h = ground arith
seen-within ask px_limit px q h = ground arith

-- What the walk knows where it goes on.
goes_on :
    (s : Side) (p : PriceLevels) (px_limit px : Tick)
    → walk_ends s p px_limit px ≡ false
    → ((q : Tick) → seen s px_limit px q ≡ true → seen s px_limit (walk_step s px) q ≡ true)
      × (seen s px_limit px px ≡ false)
      × (seen s px_limit (walk_step s px) px ≡ true)
goes_on ask p px_limit px h = (λ q v. ground arith, ground arith, ground arith)
goes_on bid p px_limit px h = (λ q v. ground arith, ground arith, ground arith)

in_band :
    (p : PriceLevels) (px : Tick) → is_valid_price p px ≡ true → p.band.min_tick + slot_of p px ≡ px
unfolding is_valid_price
in_band p px good = ground arith

module _ (s : Side) (p : PriceLevels) (px_limit : Tick) (full : AllFull p.levels) where
  add_level-le :
      (px : Tick) (available : Quantity)
      → walk_ends s p px_limit px ≡ false
      → available ≤ℤ quantity_at (seen s px_limit px) p.band.min_tick p.levels
      → add_level p px available
        ≤ℤ quantity_at (seen s px_limit (walk_step s px)) p.band.min_tick p.levels
  unfolding add_level
  add_level-le px available more le =
      let (wider, out, inside) = goes_on s p px_limit px more in
      let f = seen s px_limit px in
      let g = seen s px_limit (walk_step s px) in
      elim (Bool-cases (has_level p px)) [
        | inl holds ↦
            let (l, at) = get_level-of_has_level p px holds in
            let (good, here) = get_level-slot p px l at in
            let add =
              quantity_at-add f g wider p.band.min_tick px p.levels (slot_of p px) l full here
                (in_band p px good) out inside in
            rw (holds, at) (omega (arith, +ℤ_parts, add, le))
        | inr bare ↦
            let mono = quantity_at-mono f g wider p.band.min_tick p.levels full in
            rw bare (omega (arith, mono, le))
      ]

  walk-le :
      (qty : Quantity) (steps : ℕ) (px : Tick) (available : Quantity)
      → available ≤ℤ quantity_at (seen s px_limit px) p.band.min_tick p.levels
      → walk s p qty px_limit steps px available ≤ℤ liquidity s p px_limit
  unfolding walk
  walk-le qty zero px available le =
      let mono =
        quantity_at-mono (seen s px_limit px) (within s px_limit) (seen-within s px_limit px)
          p.band.min_tick p.levels full in
      omega (arith, mono, le)
  walk-le qty (suc steps) px available le =
      let mono =
        quantity_at-mono (seen s px_limit px) (within s px_limit) (seen-within s px_limit px)
          p.band.min_tick p.levels full in
      elim (Bool-cases (ltb_ℤ available qty)) [
        | inl short ↦ elim (Bool-cases (walk_ends s p px_limit px)) [
          | inl ends ↦ rw (short, walk, ends) (omega (arith, mono, le))
          | inr more ↦
              rw (short, walk, more)
                (walk-le qty steps (walk_step s px) (add_level p px available)
                  (add_level-le px available more le))
        ]
        | inr enough ↦ rw (enough, walk) (omega (arith, mono, le))
      ]

unchecked :
    (none_rests past enough : Bool)
    → enough ≡ false
    → (if none_rests then false else if past then false else enough) ≡ false
unchecked none_rests past enough e = ground arith

too_little : (qty counted all : Quantity) → counted ≤ℤ all → all <ℤ qty → leb_ℤ qty counted ≡ false
too_little qty counted all most short = ground arith

-- What the check counts rests there.
check_fok_liquidity-false :
    (s : Side) (qty : Quantity) (px_limit : Tick) (b : OrderBook)
    → AllFull (levels_of s b).levels
    → liquidity s (levels_of s b) px_limit <ℤ qty
    → check_fok_liquidity s qty px_limit b ≡ false
unfolding check_fok_liquidity
check_fok_liquidity-false s qty px_limit b full short =
    let p = levels_of s b in
    let most =
      walk-le s p px_limit full qty max_steps (best_of s p) 0ℤ
        (quantity_at-pos (seen s px_limit (best_of s p)) p.band.min_tick p.levels full) in
    let counts = walk s p qty px_limit max_steps (best_of s p) 0ℤ in
    unchecked (best_of s p == empty_of s) (past_limit s (best_of s p) px_limit) (leb_ℤ qty counts)
      (too_little qty counts (liquidity s p px_limit) most short)

-- On a well-formed book, a fill-or-kill order of more than rests on the other side at all the
-- prices within its limit returns with nothing filled and nothing remaining, and leaves both
-- sides, the index and the pool as they were.
pub submit_limit-killed :
    (now_ns : ℕ → Timestamp) (cmd : OrderCommand) (b : OrderBook)
    → IsBook b
    → is_fok cmd.tif ≡ true
    → let s = opposite cmd.side in
      liquidity s (levels_of s b) cmd.price_ticks <ℤ cmd.qty
      → (b' : OrderBook) × (submit_limit now_ns cmd b ≡ some (exec_result 0ℤ 0ℤ, b'))
        × Announced b b'
submit_limit-killed now_ns cmd b v fok short =
    let s = opposite cmd.side in
    let side = IsBook-side s b v in
    let full = AllFull-of_queues (levels_of s b).levels side.array.queues in
    killed_lem now_ns cmd b v fok (check_fok_liquidity-false s cmd.qty cmd.price_ticks b full short)
