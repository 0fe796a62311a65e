-- ===== src/FlatMap/Inserting.antt =====
-- `insert` and `resize` of include/hyperliquid/flat_map.h on a table that keeps its load.
use native.Mathlib.Nat.{mod-lt, mod-eq_of_lt}
use hyperliquid_matching_eng.Base.{
  ℕ, zero, suc, ◌+◌, ◌*◌, ◌%◌, ◌≤◌, ◌<◌, ◌≡◌, ◌≢◌, refl, sym, ap, ◌∙◌, subst, List, [], ◌∷◌, some,
  some_inj, arith, get_elem?, get_elem?-of_lt, set, length, length-set, replicate, length-replicate,
  leb, Bool-cases, ℕ_discrete, inl, inr, Option-cases,
}
use hyperliquid_matching_eng.FlatMap.{
  Entry, FlatMap, empty_key, next_slot, home, hash, insert_at, insert_internal, reinsert, resize,
  insert, find, blank_entry,
}
use hyperliquid_matching_eng.FlatMap.Counting.{
  IsFree, IsTable, count_taken, count_taken-set, IsFree-slot_of,
}
use hyperliquid_matching_eng.FlatMap.Probing.{nearer, distance, key_at, find-insert_internal}

module _ {ℓ} {V : Type ℓ} where
  -- A table but for its room and width.
  pub record IsCounted (m : FlatMap V) : Type ℓ where
    pub slots : length m.entries ≡ m.capacity
    pub counted : count_taken m.entries ≡ m.size

  -- What writing a key leaves: at most one slot more is taken.
  pub record Grown (m m' : FlatMap V) (more : ℕ) : Type ℓ where
    pub capacity : m'.capacity ≡ m.capacity
    pub table : IsCounted m'
    pub at_most : m'.size ≤ m.size + more

  insert_at-total :
      (j fuel d i key : ℕ) (v : V) (m : FlatMap V)
      → length m.entries ≡ m.capacity
      → i < m.capacity
      → (i + d) % m.capacity ≡ j
      → IsFree m.entries j
      → d < fuel
      → (m' : FlatMap V) × (insert_at m key v fuel i ≡ some m')
  unfolding insert_at
  insert_at-total j zero d i key v m hl hi hd free lt = elim lt [ ]
  insert_at-total j (suc fuel) zero i key v m hl hi hd free lt =
      let (e, he) = get_elem?-of_lt m.entries i (omega arith) in
      let z : e.key ≡ empty_key =
        key_at m.entries i j e he free
          (sym (mod-eq_of_lt hi) ∙ ap (λ k. k % m.capacity) (omega arith) ∙ hd) in
      (
        record m { entries = set m.entries i (record { key = key; value = v }); size = m.size + 1 },
        ground arith,
      )
  insert_at-total j (suc fuel) (suc d) i key v m hl hi hd free lt =
      let (e, he) = get_elem?-of_lt m.entries i (omega arith) in
      let slot : Entry V = record { key = key; value = v } in
      elim (ℕ_discrete e.key empty_key) [
        | yes z ↦ (record m { entries = set m.entries i slot; size = m.size + 1 }, ground arith)
        | no full ↦ elim (ℕ_discrete e.key key) [
          | yes hit ↦ (record m { entries = set m.entries i slot }, ground arith)
          | no miss ↦
              let (m', eq) =
                insert_at-total j fuel d (next_slot m i) key v m hl (mod-lt (i + 1) (omega arith))
                  (nearer i d m.capacity j hd) free (omega arith) in
              (m', ground arith)
        ]
      ]

  insert_at-Grown :
      (fuel i key : ℕ) (v : V) (m m' : FlatMap V)
      → key ≢ empty_key
      → IsCounted m
      → insert_at m key v fuel i ≡ some m'
      → Grown m m' 1
  unfolding insert_at
  insert_at-Grown zero i key v m m' ne t h = cc
  insert_at-Grown (suc fuel) i key v m m' ne t h = elim (Option-cases (get_elem? m.entries i)) [
    | inl out ↦ absurd (ground arith)
    | inr (e, he) ↦
        let slot : Entry V = record { key = key; value = v } in
        let change = count_taken-set m.entries i e slot he in
        elim (ℕ_discrete e.key empty_key) [
          | yes z ↦
              subst (λ x. Grown m x 1)
                (some_inj {a = record m { entries = set m.entries i slot; size = m.size + 1 }}
                  (ground arith))
                (record {
                  capacity = refl;
                  table = record {
                    slots = length-set m.entries i slot ∙ t.slots;
                    counted = ground (arith, t.counted);
                  };
                  at_most = omega arith;
                })
          | no full ↦ elim (ℕ_discrete e.key key) [
            | yes hit ↦
                subst (λ x. Grown m x 1)
                  (some_inj {a = record m { entries = set m.entries i slot }} (ground arith))
                  (record {
                    capacity = refl;
                    table = record {
                      slots = length-set m.entries i slot ∙ t.slots;
                      counted = ground (arith, t.counted);
                    };
                    at_most = omega arith;
                  })
            | no miss ↦ insert_at-Grown fuel (next_slot m i) key v m m' ne t (ground arith)
          ]
        ]
  ]

  -- A table with room takes any key but the empty one.
  insert_internal-Grown :
      (m : FlatMap V) (key : ℕ) (v : V)
      → key ≢ empty_key
      → IsCounted m
      → m.size < m.capacity
      → (m' : FlatMap V) × (insert_internal m key v ≡ some m') × Grown m m' 1
  unfolding insert_internal home
  insert_internal-Grown m key v ne t room =
      let i = hash key % m.capacity in
      let start : i < m.capacity = mod-lt (hash key) (omega arith) in
      let (j, lt, free) = IsFree-slot_of m.entries (omega (arith, t.slots, t.counted)) in
      let (d, near, hd) = distance i j m.capacity start (omega (arith, t.slots)) in
      let (m', e) =
        insert_at-total j (m.capacity + 1) d i key v m t.slots start hd free (omega arith) in
      (m', e, insert_at-Grown (m.capacity + 1) i key v m m' ne t e)

  reinsert-Grown :
      (es : List (Entry V)) (m : FlatMap V)
      → IsCounted m
      → m.size + count_taken es < m.capacity
      → (m' : FlatMap V) × (reinsert m es ≡ some m') × Grown m m' (count_taken es)
  unfolding reinsert count_taken
  reinsert-Grown [] m t room =
      (m, refl, record { capacity = refl; table = t; at_most = omega arith })
  reinsert-Grown (e ∷ es) m t room = elim (ℕ_discrete e.key empty_key) [
    | yes z ↦
        let (m', eq, g) = reinsert-Grown es m t (ground arith) in
        (
          m',
          ground arith,
          record { capacity = g.capacity; table = g.table; at_most = ground (arith, g.at_most) },
        )
    | no full ↦
        let (m1, e1, g1) = insert_internal-Grown m e.key e.value full t (ground arith) in
        let (m', eq, g) = reinsert-Grown es m1 g1.table (ground (arith, g1.at_most, g1.capacity)) in
        (
          m',
          ground arith,
          record {
            capacity = g.capacity ∙ g1.capacity;
            table = g.table;
            at_most = ground (arith, g.at_most, g1.at_most);
          },
        )
  ]

  pub count_taken-replicate : (n : ℕ) (v : V) → count_taken (replicate n (blank_entry v)) ≡ 0
  unfolding count_taken
  count_taken-replicate zero v = refl
  count_taken-replicate (suc n) v = omega (arith, count_taken-replicate n v)

  resize-Grown :
      (m : FlatMap V) (cap' : ℕ)
      → IsCounted m
      → m.size < cap'
      → (m' : FlatMap V) × (resize m cap' ≡ some m')
        × IsCounted m'
        × (m'.capacity ≡ cap')
        × (m'.size ≤ m.size)
  unfolding resize
  resize-Grown m cap' t room =
      let fresh : FlatMap V = record m {
        entries = replicate cap' (blank_entry m.blank);
        capacity = cap';
        size = 0;
      } in
      let (m', e, g) =
        reinsert-Grown m.entries fresh
          (record {
            slots = length-replicate cap' (blank_entry m.blank);
            counted = count_taken-replicate cap' m.blank;
          })
          (omega (arith, t.counted)) in
      (m', e, g.table, g.capacity, omega (arith, g.at_most, t.counted))

  IsTable-Grown :
      (m m' : FlatMap V) → Grown m m' 1 → m.size + 1 < m.capacity → 4 ≤ m.capacity → IsTable m'
  IsTable-Grown m m' g room wide = record {
    slots = g.table.slots;
    counted = g.table.counted;
    room = omega (arith, g.at_most, g.capacity);
    wide = omega (arith, g.capacity);
  }

  -- On a well-formed table, `insert` of a key that is not the empty one ends, whether or not it
  -- grows the table; it leaves a well-formed table, in which the key is found with its value.
  pub insert-IsTable :
      (m : FlatMap V) (key : ℕ) (v : V)
      → key ≢ empty_key
      → IsTable m
      → (m' : FlatMap V) × (insert m key v ≡ some m') × IsTable m' × (find m' key ≡ some v)
  unfolding insert
  insert-IsTable m key v ne t =
      let c : IsCounted m = record { slots = t.slots; counted = t.counted } in
      elim (Bool-cases (leb (7 * m.capacity) (10 * m.size))) [
        | inl loaded ↦
            let (m1, e1, c1, wider, less) =
              resize-Grown m (m.capacity * 2) c (omega (arith, t.room)) in
            let (m', e, g) =
              insert_internal-Grown m1 key v ne c1 (omega (arith, wider, less, t.room)) in
            (
              m',
              rw (loaded, e1) e,
              IsTable-Grown m1 m' g (omega (arith, wider, less, t.room, t.wide))
                  (omega (arith, wider, t.wide)),
              find-insert_internal m1 m' key v ne e,
            )
        | inr light ↦
            let (m', e, g) = insert_internal-Grown m key v ne c t.room in
            (
              m',
              rw light e,
              IsTable-Grown m m' g (ground (arith, light, t.wide)) t.wide,
              find-insert_internal m m' key v ne e,
            )
      ]
