-- ===== src/FlatMap/Wrapping.antt =====
-- `FlatMap::erase` (include/hyperliquid/flat_map.h) where the entries behind the erased one wrap
-- round the end of the table.
use native.Mathlib.Nat.{mod_self, mod-eq_of_lt}
use hyperliquid_matching_eng.Base.{
  ℕ, suc, ◌+◌, ◌-◌, ◌%◌, ◌<◌, ◌≡◌, ◌≢◌, ap, ◌∙◌, none, some, arith, get_elem?, set, length,
  length-set, get_elem?-set_ne, get_elem?-set_self,
}
use hyperliquid_matching_eng.FlatMap.{
  Entry, FlatMap, empty_key, next_slot, home, find_from, find, shift_back, erase_from, erase,
  can_move,
}

module _ {ℓ} {V : Type ℓ} where
  -- The last slot holds `last` at its home, slot 0 holds `first` at its home, and slot 1 is empty.
  pub record Wraps (m : FlatMap V) (last first : Entry V) : Type ℓ where
    pub slots : length m.entries ≡ m.capacity
    pub room : 2 < m.capacity
    pub at_end : get_elem? m.entries (m.capacity - 1) ≡ some last
    pub at_start : get_elem? m.entries 0 ≡ some first
    pub hole : Entry V
    pub after : get_elem? m.entries 1 ≡ some hole
    pub is_hole : hole.key ≡ empty_key
    pub last_home : home m last.key ≡ m.capacity - 1
    pub first_home : home m first.key ≡ 0
    pub last_full : last.key ≢ empty_key
    pub first_full : first.key ≢ empty_key

  abbrev pub emptied : Entry V → Entry V
  emptied e = record e { key = empty_key }

  -- The table after the erasure: `first` has moved to the last slot.
  abbrev pub shifted : FlatMap V → Entry V → Entry V → FlatMap V
  shifted m last first = record m {
    entries =
        set (set (set m.entries (m.capacity - 1) (emptied last)) (m.capacity - 1) first) 0
          (emptied first);
    size = m.size - 1;
  }

  end_next : (m : FlatMap V) → 2 < m.capacity → next_slot m (m.capacity - 1) ≡ 0
  end_next m h = ap (λ k. k % m.capacity) (omega arith) ∙ mod_self m.capacity

  start_next : (m : FlatMap V) → 2 < m.capacity → next_slot m 0 ≡ 1
  start_next m h = ap (λ k. k % m.capacity) (omega arith) ∙ mod-eq_of_lt (omega arith)

  -- The entry at the start moves into the hole at the end, and the next slot ends the loop.
  shift_back-Wraps :
      (m : FlatMap V) (first hole : Entry V) (fuel : ℕ)
      → 2 < m.capacity
      → get_elem? m.entries 0 ≡ some first
      → get_elem? m.entries 1 ≡ some hole
      → hole.key ≡ empty_key
      → home m first.key ≡ 0
      → first.key ≢ empty_key
      → shift_back m (suc (suc fuel)) (m.capacity - 1) 0
        ≡ some (record m { entries = set (set m.entries (m.capacity - 1) first) 0 (emptied first) })
  unfolding shift_back can_move
  shift_back-Wraps m first hole fuel room h0 h1 z hm full = ground (
    arith,
    start_next m room,
    get_elem?-set_ne (set m.entries (m.capacity - 1) first) {i = 0} {j = 1} (emptied first)
        (omega arith),
    get_elem?-set_ne m.entries {i = m.capacity - 1} {j = 1} first (omega arith),
  )

  erase_from-hit :
      (m : FlatMap V) (e : Entry V) (fuel i : ℕ)
      → get_elem? m.entries i ≡ some e
      → e.key ≢ empty_key
      → erase_from m e.key (suc fuel) i
        ≡ shift_back
            (record m { entries = set m.entries i (emptied e); size = m.size - 1 })
            (m.capacity + 1)
            i
            (next_slot m i)
  unfolding erase_from
  erase_from-hit m e fuel i h full = ground arith

  erase-Wraps :
      (m : FlatMap V) (last first : Entry V)
      → Wraps m last first
      → erase m last.key ≡ some (shifted m last first)
  unfolding erase
  erase-Wraps m last first w =
      let two : m.capacity + 1 ≡ suc (suc (m.capacity - 1)) = omega arith in
      let keep0 =
        get_elem?-set_ne m.entries {i = m.capacity - 1} {j = 0} (emptied last) (omega arith) in
      let keep1 =
        get_elem?-set_ne m.entries {i = m.capacity - 1} {j = 1} (emptied last) (omega arith) in
      rw (w.last_home, two)
        (erase_from-hit m last (suc (m.capacity - 1)) (m.capacity - 1) w.at_end w.last_full
          ∙ rw (end_next m w.room, two)
              (shift_back-Wraps
                (record m {
                  entries = set m.entries (m.capacity - 1) (emptied last);
                  size = m.size - 1;
                })
                first w.hole (m.capacity - 1) w.room (keep0 ∙ w.at_start) (keep1 ∙ w.after)
                w.is_hole w.first_home w.first_full))

  -- In a table whose last slot holds a key that belongs there and whose first slot holds a key
  -- that belongs there, with an empty slot behind it, the second key is found; erasing the first
  -- of them ends, and afterwards the second is not found.
  pub erase_loses_first :
      (m : FlatMap V) (last first : Entry V)
      → Wraps m last first
      → (find m first.key ≡ some first.value)
        × ((m' : FlatMap V) × (erase m last.key ≡ some m') × (find m' first.key ≡ none))
  unfolding find find_from
  erase_loses_first m last first w =
      let one : m.capacity + 1 ≡ suc m.capacity = omega arith in
      let gone =
        get_elem?-set_self
          (set (set m.entries (m.capacity - 1) (emptied last)) (m.capacity - 1) first) 0
          (emptied first)
          (omega (
            arith,
            length-set m.entries (m.capacity - 1) (emptied last),
            length-set (set m.entries (m.capacity - 1) (emptied last)) (m.capacity - 1) first,
          )) in
      (ground arith, (shifted m last first, erase-Wraps m last first w, ground arith))
