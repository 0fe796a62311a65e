-- ===== src/FlatMap/Probing.antt =====
-- The probe loops of include/hyperliquid/flat_map.h, on a table with an empty slot.
use native.Mathlib.Nat.{mod-lt, mod-eq_of_lt, mod-add-mod, add-mod_left}
use hyperliquid_matching_eng.Base.{
  ℕ, zero, suc, ◌+◌, ◌-◌, ◌%◌, ◌<◌, ◌≡◌, ◌≢◌, refl, sym, ap, ◌∙◌, subst, List, some, some_inj,
  arith, get_elem?, get_elem?-of_lt, set, length, length-set, get_elem?-set_ne, get_elem?-set_self,
  lt-of_get_elem?, Bool-cases, dec_lt, ℕ_discrete, inl, inr, Option-cases, ◌⊎◌,
}
use hyperliquid_matching_eng.FlatMap.{
  Entry, FlatMap, empty_key, next_slot, home, hash, find_from, find, insert_at, insert_internal,
  shift_back, erase_from, erase, can_move,
}
use hyperliquid_matching_eng.FlatMap.Counting.{IsFree, IsTable, IsFree-slot_of, erase-Kept}

-- One step along the probe sequence brings the empty slot one step nearer.
pub nearer : (i d c j : ℕ) → (i + suc d) % c ≡ j → ((i + 1) % c + d) % c ≡ j
nearer i d c j e = rw mod-add-mod (ap (λ k. k % c) (omega arith) ∙ e)

-- How far round the table `j` is from `i`.
pub distance : (i j c : ℕ) → i < c → j < c → (d : ℕ) × (d < c) × ((i + d) % c ≡ j)
distance i j c hi hj = elim (dec_lt j i) [
  | yes lt ↦ (c - i + j, omega arith, round)
  | no le ↦ (j - i, omega arith, (ap (λ k. k % c) (omega arith) ∙ mod-eq_of_lt hj))
]
  where
    round : (i + (c - i + j)) % c ≡ j
    round = ap (λ k. k % c) (omega arith) ∙ add-mod_left c j ∙ mod-eq_of_lt hj

module _ {ℓ} {V : Type ℓ} where
  -- As many slots as the capacity, one of them empty.
  record HasFree (m : FlatMap V) : Type ℓ where
    slots : length m.entries ≡ m.capacity
    free_slot : ℕ
    free_in : free_slot < m.capacity
    is_free : IsFree m.entries free_slot

  -- A slot that the probe has not passed is not the empty one, unless it is empty.
  pub key_at :
      (es : List (Entry V)) (i j : ℕ) (e : Entry V)
      → get_elem? es i ≡ some e
      → IsFree es j
      → i ≡ j
      → e.key ≡ empty_key
  key_at es i j e h (f, hf, z) q = ground (arith, subst (λ k. get_elem? es k ≡ some e) q h)

  module _ (j : ℕ) where
    shift_back-total :
        (fuel d idx probe : ℕ) (m : FlatMap V)
        → length m.entries ≡ m.capacity
        → j < m.capacity
        → probe < m.capacity
        → idx ≢ j
        → (probe + d) % m.capacity ≡ j
        → IsFree m.entries j
        → d < fuel
        → (m' : FlatMap V) × (shift_back m fuel idx probe ≡ some m') × HasFree m'
    unfolding shift_back
    shift_back-total zero d idx probe m hl hj hp ne hd free lt = elim lt [ ]
    shift_back-total (suc fuel) zero idx probe m hl hj hp ne hd free lt =
        let (e, he) = get_elem?-of_lt m.entries probe (omega arith) in
        let z : e.key ≡ empty_key =
          key_at m.entries probe j e he free
            (sym (mod-eq_of_lt hp) ∙ ap (λ k. k % m.capacity) (omega arith) ∙ hd) in
        (m, ground arith, record { slots = hl; free_slot = j; free_in = hj; is_free = free })
    shift_back-total (suc fuel) (suc d) idx probe m hl hj hp ne hd free lt =
        let (e, he) = get_elem?-of_lt m.entries probe (omega arith) in
        elim (ℕ_discrete e.key empty_key) [
          | yes z ↦
              (m, ground arith, record { slots = hl; free_slot = j; free_in = hj; is_free = free })
          | no full ↦ elim (Bool-cases (can_move idx probe (home m e.key))) [
            | inl move ↦
                let apart : probe ≢ j = λ q. full (key_at m.entries probe j e he free q) in
                let hole : Entry V = record e { key = empty_key } in
                let moved : FlatMap V = record m {
                  entries = set (set m.entries idx e) probe hole;
                } in
                let (m', eq, t) =
                  shift_back-total fuel d probe (next_slot m probe) moved
                    (length-set (set m.entries idx e) probe hole ∙ length-set m.entries idx e ∙ hl)
                    hj (mod-lt (probe + 1) (omega arith)) apart (nearer probe d m.capacity j hd)
                    (
                      free.0,
                      get_elem?-set_ne (set m.entries idx e) hole apart
                          ∙ get_elem?-set_ne m.entries e ne
                          ∙ free.1,
                      free.2,
                    )
                    (omega arith) in
                (m', ground arith, t)
            | inr stay ↦
                let (m', eq, t) =
                  shift_back-total fuel d idx (next_slot m probe) m hl hj
                    (mod-lt (probe + 1) (omega arith)) ne (nearer probe d m.capacity j hd) free
                    (omega arith) in
                (m', ground arith, t)
          ]
        ]

    erase_from-total :
        (fuel d i : ℕ) (m : FlatMap V) (key : ℕ)
        → length m.entries ≡ m.capacity
        → j < m.capacity
        → i < m.capacity
        → (i + d) % m.capacity ≡ j
        → IsFree m.entries j
        → d < fuel
        → d < m.capacity
        → (m' : FlatMap V) × (erase_from m key fuel i ≡ some m') × HasFree m'
    unfolding erase_from
    erase_from-total zero d i m key hl hj hi hd free lt small = elim lt [ ]
    erase_from-total (suc fuel) zero i m key hl hj hi hd free lt small =
        let (e, he) = get_elem?-of_lt m.entries i (omega arith) in
        let z : e.key ≡ empty_key =
          key_at m.entries i j e he free
            (sym (mod-eq_of_lt hi) ∙ ap (λ k. k % m.capacity) (omega arith) ∙ hd) in
        (m, ground arith, record { slots = hl; free_slot = j; free_in = hj; is_free = free })
    erase_from-total (suc fuel) (suc d) i m key hl hj hi hd free lt small =
        let (e, he) = get_elem?-of_lt m.entries i (omega arith) in
        elim (ℕ_discrete e.key empty_key) [
          | yes z ↦
              (m, ground arith, record { slots = hl; free_slot = j; free_in = hj; is_free = free })
          | no full ↦ elim (ℕ_discrete e.key key) [
            | yes hit ↦
                let apart : i ≢ j = λ q. full (key_at m.entries i j e he free q) in
                let hole : Entry V = record e { key = empty_key } in
                let holed : FlatMap V = record m {
                  entries = set m.entries i hole;
                  size = m.size - 1;
                } in
                let (m', eq, t) =
                  shift_back-total (m.capacity + 1) d i (next_slot m i) holed
                    (length-set m.entries i hole ∙ hl) hj (mod-lt (i + 1) (omega arith)) apart
                    (nearer i d m.capacity j hd)
                    (free.0, get_elem?-set_ne m.entries hole apart ∙ free.1, free.2)
                    (omega arith) in
                (m', ground arith, t)
            | no miss ↦
                let (m', eq, t) =
                  erase_from-total fuel d (next_slot m i) m key hl hj (mod-lt (i + 1) (omega arith))
                    (nearer i d m.capacity j hd) free (omega arith) (omega arith) in
                (m', ground arith, t)
          ]
        ]

  IsTable-HasFree : (m : FlatMap V) → IsTable m → HasFree m
  IsTable-HasFree m t =
      let (j, lt, free) = IsFree-slot_of m.entries (omega (arith, t.slots, t.counted, t.room)) in
      record { slots = t.slots; free_slot = j; free_in = omega (arith, t.slots); is_free = free }

  erase-total :
      (m : FlatMap V) (key : ℕ)
      → HasFree m
      → (m' : FlatMap V) × (erase m key ≡ some m') × HasFree m'
  unfolding erase home
  erase-total m key t =
      let start : hash key % m.capacity < m.capacity = mod-lt (hash key) (omega arith) in
      let (d, lt, hd) = distance (hash key % m.capacity) t.free_slot m.capacity start t.free_in in
      erase_from-total t.free_slot (m.capacity + 1) d (hash key % m.capacity) m key t.slots
        t.free_in start hd t.is_free (omega arith) lt

  -- On a table with as many slots as its capacity, at least four, fewer of them taken than there
  -- are, and `size` counting those taken, `erase` of any key ends, and leaves such a table.
  pub erase-IsTable :
      (m : FlatMap V) (key : ℕ)
      → IsTable m
      → (m' : FlatMap V) × (erase m key ≡ some m') × IsTable m'
  erase-IsTable m key t =
      let (m', e, _) = erase-total m key (IsTable-HasFree m t) in
      let k = erase-Kept m m' key t.counted e in
      (
        m',
        e,
        record {
          slots = k.slots ∙ t.slots ∙ sym k.capacity;
          counted = k.counted;
          room = omega (arith, k.smaller, k.capacity, t.room);
          wide = omega (arith, k.capacity, t.wide);
        },
      )

  -- What `insert_at` writes to, and what it leaves.
  record Inserted (m : FlatMap V) (key : ℕ) (m' : FlatMap V) : Type ℓ where
    capacity : m'.capacity ≡ m.capacity
    others :
        (k : ℕ) (e : Entry V)
        → get_elem? m.entries k ≡ some e
        → e.key ≢ empty_key
        → e.key ≢ key
        → get_elem? m'.entries k ≡ some e
    slots : length m'.entries ≡ length m.entries

  set-Inserted :
      (m : FlatMap V) (key i size : ℕ) (e s : Entry V)
      → get_elem? m.entries i ≡ some e
      → (e.key ≡ empty_key) ⊎ (e.key ≡ key)
      → (m' : FlatMap V) → some (record m { entries = set m.entries i s; size = size }) ≡ some m'
      → Inserted m key m'
  set-Inserted m key i size e s he or m' q = subst (Inserted m key) (some_inj q) (record {
    capacity = refl;
    others = λ k f hf full miss.
        get_elem?-set_ne m.entries s
          (λ q. ground (arith, subst (λ n. get_elem? m.entries n ≡ some e) q he))
        ∙ hf;
    slots = length-set m.entries i s;
  })

  insert_at-Inserted :
      (fuel i : ℕ) (m m' : FlatMap V) (key : ℕ) (v : V)
      → insert_at m key v fuel i ≡ some m'
      → Inserted m key m'
  unfolding insert_at
  insert_at-Inserted zero i m m' key v h = cc
  insert_at-Inserted (suc fuel) i m m' key v h = elim (Option-cases (get_elem? m.entries i)) [
    | inl e ↦ absurd (ground arith)
    | inr (e, he) ↦ elim (ℕ_discrete e.key empty_key) [
      | yes z ↦
          set-Inserted m key i (m.size + 1) e (record { key = key; value = v }) he (inl z) m'
            (ground arith)
      | no full ↦ elim (ℕ_discrete e.key key) [
        | yes hit ↦
            set-Inserted m key i m.size e (record { key = key; value = v }) he (inr hit) m'
              (ground arith)
        | no miss ↦ insert_at-Inserted fuel (next_slot m i) m m' key v (ground arith)
      ]
    ]
  ]

  find_from-written :
      (fuel i key size : ℕ) (m m' : FlatMap V) (v : V) (e : Entry V)
      → key ≢ empty_key
      → get_elem? m.entries i ≡ some e
      → some (record m { entries = set m.entries i (record { key = key; value = v }); size = size })
        ≡ some m'
      → find_from m' key (suc fuel) i ≡ some v
  unfolding find_from
  find_from-written fuel i key size m m' v e ne he q = rw (← some_inj q) (
      ground (
        arith,
        get_elem?-set_self m.entries i (record { key = key; value = v })
            (lt-of_get_elem? m.entries i e he),
      ))

  find_from-insert_at :
      (fuel i : ℕ) (m m' : FlatMap V) (key : ℕ) (v : V)
      → key ≢ empty_key
      → insert_at m key v fuel i ≡ some m'
      → find_from m' key fuel i ≡ some v
  unfolding insert_at find_from
  find_from-insert_at zero i m m' key v ne h = cc
  find_from-insert_at (suc fuel) i m m' key v ne h = elim (Option-cases (get_elem? m.entries i)) [
    | inl e ↦ absurd (ground arith)
    | inr (e, he) ↦ elim (ℕ_discrete e.key empty_key) [
      | yes z ↦ find_from-written fuel i key (m.size + 1) m m' v e ne he (ground arith)
      | no full ↦ elim (ℕ_discrete e.key key) [
        | yes hit ↦ find_from-written fuel i key m.size m m' v e ne he (ground arith)
        | no miss ↦
            let w = insert_at-Inserted (suc fuel) i m m' key v h in
            let same = w.others i e he full miss in
            let rest = find_from-insert_at fuel (next_slot m i) m m' key v ne (ground arith) in
            ground arith
      ]
    ]
  ]

  -- A key that is not the empty key and that `insert_internal` has written is found, with its
  -- value.
  pub find-insert_internal :
      (m m' : FlatMap V) (key : ℕ) (v : V)
      → key ≢ empty_key
      → insert_internal m key v ≡ some m'
      → find m' key ≡ some v
  unfolding insert_internal find home
  find-insert_internal m m' key v ne h =
      let w = insert_at-Inserted (m.capacity + 1) (hash key % m.capacity) m m' key v h in
      let r = find_from-insert_at (m.capacity + 1) (hash key % m.capacity) m m' key v ne h in
      let c = w.capacity in ground arith
