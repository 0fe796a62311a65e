-- ===== src/Program/Splitting.antt =====
-- The comma-separated lists of src/main.cpp.
use hyperliquid_matching_eng.Base.{
  ℕ, zero, suc, ◌+◌, ◌<◌, ◌≡◌, ◌≢◌, refl, sym, ap, ◌∙◌, arith, some, none, ◌⊎◌, inl, inr, List, [],
  ◌∷◌, ◌++◌, ◌==◌, length, length-append, Bool-cases,
}
use hyperliquid_matching_eng.Json.{Bytes}
use hyperliquid_matching_eng.Program.{cut_at, split_list, split_commas}

-- The pieces with a comma between one and the next.
unfoldable pub join : List Bytes → Bytes
join [] = []
join (s ∷ []) = s
join (s ∷ (t ∷ pieces)) = s ++ b',' ∷ join (t ∷ pieces)

-- No byte is `c`.
abbrev pub Without : ℕ → Bytes → Type 0
Without c [] = Unit {0}
Without c (d ∷ s) = (d ≢ c) × Without c s

abbrev pub NoCommas : List Bytes → Type 0
NoCommas [] = Unit {0}
NoCommas (s ∷ pieces) = Without b',' s × NoCommas pieces

-- The cut is at the first `c`, if there is one.
cut_at_lem :
    (c : ℕ) (s : Bytes)
    → ((cut_at c s ≡ none) × Without c s)
      ⊎ ((front : Bytes) × (back : Bytes) × (cut_at c s ≡ some (front, back))
          × (s ≡ front ++ c ∷ back)
          × Without c front)
unfolding cut_at
cut_at_lem c [] = inl (refl, tt)
cut_at_lem c (d ∷ s) = elim (Bool-cases (d == c)) [
  | inl hit ↦ inr ([], s, rw hit refl, ap (λ x. x ∷ s) (ground arith), tt)
  | inr miss ↦ elim (cut_at_lem c s) [
    | inl (e, h) ↦ inl (rw (miss, e) refl, (ground arith, h))
    | inr (front, back, e, f, h) ↦
        inr (d ∷ front, back, rw (miss, e) refl, ap (λ x. d ∷ x) f, (ground arith, h))
  ]
]

length-cut : (s front back : Bytes) (c : ℕ) → s ≡ front ++ c ∷ back → length back < length s
length-cut s front back c e =
    omega (arith, ap (λ (x : Bytes). length x) e, length-append front (c ∷ back))

abbrev Split : ℕ → Bytes → Type 0
Split fuel s =
    (piece : Bytes) × (pieces : List Bytes) × (split_list fuel s ≡ some (piece ∷ pieces))
    × (join (piece ∷ pieces) ≡ s)
    × NoCommas (piece ∷ pieces)

split_list_lem : (fuel : ℕ) (s : Bytes) → length s < fuel → Split fuel s
unfolding split_list join
split_list_lem zero s h = elim h [ ]
split_list_lem (suc fuel) s h = elim (cut_at_lem b',' s) [
  | inl (e, free) ↦ (s, [], rw (e, split_list) refl, refl, (free, tt))
  | inr (front, back, e, f, free) ↦
      let (piece, pieces, g, j, k) =
        split_list_lem fuel back (omega (arith, length-cut s front back b',' f)) in
      (
        front,
        piece ∷ pieces,
        rw (e, split_list, g) refl,
        ap (λ x. front ++ b',' ∷ x) j ∙ sym f,
        (free, k),
      )
]

-- The list that an argument is split into at its commas always comes out, has no comma in any
-- piece, and joined by commas is the argument again.
pub split_commas-join :
    (s : Bytes)
    → (pieces : List Bytes) × (split_commas s ≡ some pieces) × (join pieces ≡ s) × NoCommas pieces
unfolding split_commas
split_commas-join s =
    let (piece, pieces, e, j, k) = split_list_lem (length s + 1) s (omega arith) in
    (piece ∷ pieces, e, j, k)
