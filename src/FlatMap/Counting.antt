-- ===== src/FlatMap/Counting.antt =====
-- How many slots of a table of include/hyperliquid/flat_map.h are taken, and what an erasure does to
-- the number.
use hyperliquid_matching_eng.Base.{
  ℕ, zero, suc, ◌+◌, ◌-◌, ◌≤◌, ◌<◌, ◌≡◌, ◌≢◌, refl, ap, ◌∙◌, subst, List, [], ◌∷◌, some, some_inj,
  arith, get_elem?, set, length, length-set, get_elem?-set_ne, get_elem?-set_self, lt-of_get_elem?,
  Bool-cases, ℕ_discrete, inl, inr, Option-cases, ◌==◌, if◌then◌else◌,
}
use hyperliquid_matching_eng.FlatMap.{
  Entry, FlatMap, empty_key, next_slot, home, shift_back, erase_from, erase, can_move,
}

module _ {ℓ} {V : Type ℓ} where
  abbrev pub taken : Entry V → ℕ
  taken e = if e.key == empty_key then 0 else 1

  unfoldable pub count_taken : List (Entry V) → ℕ
  count_taken [] = 0
  count_taken (e ∷ es) = taken e + count_taken es

  pub count_taken-set :
      (es : List (Entry V)) (i : ℕ) (e s : Entry V)
      → get_elem? es i ≡ some e
      → count_taken (set es i s) + taken e ≡ count_taken es + taken s
  unfolding count_taken
  count_taken-set [] i e s h = cc
  count_taken-set (x ∷ es) zero e s h =
      let same : taken x ≡ taken e = ap (λ y. taken y) (some_inj h) in omega (arith, same)
  count_taken-set (x ∷ es) (suc i) e s h = omega (arith, count_taken-set es i e s h)

  -- The slot `j` is empty.
  abbrev pub IsFree : List (Entry V) → ℕ → Type ℓ
  IsFree es j = (e : Entry V) × (get_elem? es j ≡ some e) × (e.key ≡ empty_key)

  -- Where fewer slots are taken than there are, one is empty.
  pub IsFree-slot_of :
      (es : List (Entry V)) → count_taken es < length es → (j : ℕ) × (j < length es) × IsFree es j
  unfolding count_taken
  IsFree-slot_of [] h = elim h [ ]
  IsFree-slot_of (e ∷ es) h = elim (ℕ_discrete e.key empty_key) [
    | yes z ↦ (0, omega arith, (e, refl, z))
    | no full ↦ let (j, lt, free) = IsFree-slot_of es (ground arith) in (suc j, omega arith, free)
  ]

  -- As many slots as the capacity, fewer of them taken, and `size` counts those.
  pub record IsTable (m : FlatMap V) : Type ℓ where
    pub slots : length m.entries ≡ m.capacity
    pub counted : count_taken m.entries ≡ m.size
    pub room : m.size < m.capacity
    pub wide : 4 ≤ m.capacity

  -- What an erasure keeps: the number of slots, and that `size` counts those taken.
  pub record Kept (m m' : FlatMap V) : Type ℓ where
    pub capacity : m'.capacity ≡ m.capacity
    pub slots : length m'.entries ≡ length m.entries
    pub counted : count_taken m'.entries ≡ m'.size
    pub smaller : m'.size ≤ m.size

  Kept-refl : (m : FlatMap V) → count_taken m.entries ≡ m.size → Kept m m
  Kept-refl m c = record { capacity = refl; slots = refl; counted = c; smaller = omega arith }

  Kept-trans : (a b c : FlatMap V) → Kept a b → Kept b c → Kept a c
  Kept-trans a b c u v = record {
    capacity = v.capacity ∙ u.capacity;
    slots = v.slots ∙ u.slots;
    counted = v.counted;
    smaller = omega (arith, u.smaller, v.smaller);
  }

  -- Moving an entry into the hole at `idx` leaves as many slots taken, and a hole where it was.
  move-Kept :
      (m : FlatMap V) (idx probe : ℕ) (e : Entry V)
      → count_taken m.entries ≡ m.size
      → IsFree m.entries idx
      → get_elem? m.entries probe ≡ some e
      → e.key ≢ empty_key
      → let hole : Entry V = record e { key = empty_key } in
        let moved : FlatMap V = record m { entries = set (set m.entries idx e) probe hole } in
        Kept m moved × IsFree moved.entries probe
  move-Kept m idx probe e c (f, hf, z) he full =
      let hole : Entry V = record e { key = empty_key } in
      let apart : idx ≢ probe =
        λ q. absurd (ground (arith, subst (λ k. get_elem? m.entries k ≡ some f) q hf)) in
      let first = count_taken-set m.entries idx f e hf in
      let still = get_elem?-set_ne m.entries e apart ∙ he in
      let second = count_taken-set (set m.entries idx e) probe e hole still in
      let inside = lt-of_get_elem? m.entries probe e he in
      (
        record {
          capacity = refl;
          slots = length-set (set m.entries idx e) probe hole ∙ length-set m.entries idx e;
          counted = ground arith;
          smaller = omega arith;
        },
        (
          hole,
          get_elem?-set_self (set m.entries idx e) probe hole
              (omega (arith, length-set m.entries idx e)),
          refl,
        ),
      )

  shift_back-Kept :
      (fuel idx probe : ℕ) (m m' : FlatMap V)
      → count_taken m.entries ≡ m.size
      → IsFree m.entries idx
      → shift_back m fuel idx probe ≡ some m'
      → Kept m m'
  unfolding shift_back
  shift_back-Kept zero idx probe m m' c free h = cc
  shift_back-Kept (suc fuel) idx probe m m' c free h =
      elim (Option-cases (get_elem? m.entries probe)) [
        | inl out ↦ absurd (ground arith)
        | inr (e, he) ↦ elim (ℕ_discrete e.key empty_key) [
          | yes z ↦ subst (Kept m) (some_inj (ground arith)) (Kept-refl m c)
          | no full ↦
              let (kept, hole) = move-Kept m idx probe e c free he full in
              elim (Bool-cases (can_move idx probe (home m e.key))) [
                | inl go ↦ Kept-trans m _ m' kept (
                    shift_back-Kept fuel probe (next_slot m probe) _ m' kept.counted hole
                      (ground arith))
                | inr stay ↦ shift_back-Kept fuel idx (next_slot m probe) m m' c free (ground arith)
              ]
        ]
      ]

  erase_from-Kept :
      (fuel i key : ℕ) (m m' : FlatMap V)
      → count_taken m.entries ≡ m.size
      → erase_from m key fuel i ≡ some m'
      → Kept m m'
  unfolding erase_from
  erase_from-Kept zero i key m m' c h = cc
  erase_from-Kept (suc fuel) i key m m' c h = elim (Option-cases (get_elem? m.entries i)) [
    | inl out ↦ absurd (ground arith)
    | inr (e, he) ↦ elim (ℕ_discrete e.key empty_key) [
      | yes z ↦ subst (Kept m) (some_inj (ground arith)) (Kept-refl m c)
      | no full ↦ elim (ℕ_discrete e.key key) [
        | yes hit ↦
            let hole : Entry V = record e { key = empty_key } in
            let holed : FlatMap V = record m {
              entries = set m.entries i hole;
              size = m.size - 1;
            } in
            let less = count_taken-set m.entries i e hole he in
            let first : Kept m holed = record {
              capacity = refl;
              slots = length-set m.entries i hole;
              counted = ground arith;
              smaller = omega arith;
            } in
            Kept-trans m holed m' first (
              shift_back-Kept (m.capacity + 1) i (next_slot m i) holed m' first.counted
                (hole, get_elem?-set_self m.entries i hole (lt-of_get_elem? m.entries i e he), refl)
                (ground arith))
        | no miss ↦ erase_from-Kept fuel (next_slot m i) key m m' c (ground arith)
      ]
    ]
  ]

  pub erase-Kept :
      (m m' : FlatMap V) (key : ℕ)
      → count_taken m.entries ≡ m.size
      → erase m key ≡ some m'
      → Kept m m'
  unfolding erase
  erase-Kept m m' key c h = erase_from-Kept (m.capacity + 1) (home m key) key m m' c h
