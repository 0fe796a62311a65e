-- ===== src/FlatMap.antt =====
-- include/hyperliquid/flat_map.h: an open-addressing hash map with linear probing, from non-zero
-- keys (0 marks an empty slot). The capacity is a power of two, so `x & (capacity - 1)` is written
-- `x % capacity`. `blank` is the value that zeroed memory stands for.
pub mod Counting
pub mod Probing
pub mod Wrapping
pub mod Inserting
use Prim.Native.Nat.{bit_xor}
use hyperliquid_matching_eng.Base.{
  ℕ, zero, suc, ◌+◌, ◌-◌, ◌*◌, ◌/◌, ◌%◌, ◌^◌, Bool, ◌||◌, List, [], ◌∷◌, Option, none, some, ◌==◌,
  ltb, leb, if◌then◌else◌, get_elem?, set, replicate, ◌>>=◌,
}

pub record Entry {ℓ} (V : Type ℓ) : Type ℓ where
  pub key : ℕ
  pub value : V

pub record FlatMap {ℓ} (V : Type ℓ) : Type ℓ where
  pub entries : List (Entry V)
  pub capacity : ℕ
  pub size : ℕ
  pub blank : V

abbrev pub empty_key : ℕ
empty_key = 0

abbrev pub xor_shift : ℕ → ℕ
xor_shift x = bit_xor x (x / 2 ^ 33)

-- The 64-bit mixer; multiplication wraps.
unfoldable pub hash : ℕ → ℕ
hash k =
    xor_shift
      ((xor_shift ((xor_shift k * 0xff51afd7ed558ccd) % 2 ^ 64) * 0xc4ceb9fe1a85ec53) % 2 ^ 64)

-- The test is the same in the two cases, wrapped or not, that the source tells apart.
unfoldable pub can_move : ℕ → ℕ → ℕ → Bool
can_move idx probe_idx desired_idx = leb desired_idx idx || ltb probe_idx desired_idx

-- The constructor doubles 16 until it reaches the initial capacity.
unfoldable pub grow_capacity : ℕ → ℕ → ℕ → ℕ
grow_capacity zero capacity initial = capacity
grow_capacity (suc fuel) capacity initial =
    let rest = grow_capacity fuel (capacity * 2) initial in
    if ltb capacity initial then rest else capacity

module _ {ℓ} {V : Type ℓ} where
  -- The first slot of the key's probe sequence, and the slot after a slot.
  unfoldable pub home : FlatMap V → ℕ → ℕ
  home m key = hash key % m.capacity

  abbrev pub next_slot : FlatMap V → ℕ → ℕ
  next_slot m i = (i + 1) % m.capacity

  -- The loop of `find`, with what is left of its bound on the probes as fuel: it gives up after
  -- capacity + 1 steps.
  unfoldable pub find_from : FlatMap V → ℕ → ℕ → ℕ → Option V
  find_from m key zero i = none
  find_from m key (suc fuel) i = elim (get_elem? m.entries i) [
    | none ↦ none
    | some e ↦
        let rest = find_from m key fuel (next_slot m i) in
        if e.key == empty_key then none else if e.key == key then some e.value else rest
  ]

  unfoldable pub find : FlatMap V → ℕ → Option V
  unfolding find_from home
  find m key = if key == empty_key then none else find_from m key (m.capacity + 1) (home m key)

  -- `none` is a probe loop that meets no empty slot.
  unfoldable pub insert_at : FlatMap V → ℕ → V → ℕ → ℕ → Option (FlatMap V)
  insert_at m key v zero i = none
  insert_at m key v (suc fuel) i = elim (get_elem? m.entries i) [
    | none ↦ none
    | some e ↦
        let slot : Entry V = record { key = key; value = v } in
        let rest = insert_at m key v fuel (next_slot m i) in
        if e.key == empty_key
        then some (record m { entries = set m.entries i slot; size = m.size + 1 })
        else if e.key == key
        then some (record m { entries = set m.entries i slot })
        else rest
  ]

  unfoldable pub insert_internal : FlatMap V → ℕ → V → Option (FlatMap V)
  unfolding insert_at home
  insert_internal m key v = insert_at m key v (m.capacity + 1) (home m key)

  unfoldable pub reinsert : FlatMap V → List (Entry V) → Option (FlatMap V)
  unfolding insert_internal
  reinsert m [] = some m
  reinsert m (e ∷ es) =
      if e.key == empty_key
      then reinsert m es
      else (do m' ← insert_internal m e.key e.value; reinsert m' es)

  abbrev pub blank_entry : V → Entry V
  blank_entry blank = record { key = empty_key; value = blank }

  unfoldable pub resize : FlatMap V → ℕ → Option (FlatMap V)
  unfolding reinsert
  resize m new_cap =
      reinsert
        (record m {
          entries = replicate new_cap (blank_entry m.blank);
          capacity = new_cap;
          size = 0;
        })
        m.entries

  -- size_ >= capacity_ * 0.7, which for a power of two is 10 * size_ >= 7 * capacity_.
  unfoldable pub insert : FlatMap V → ℕ → V → Option (FlatMap V)
  unfolding resize insert_internal
  insert m key v =
      if leb (7 * m.capacity) (10 * m.size)
      then (do m' ← resize m (m.capacity * 2); insert_internal m' key v)
      else insert_internal m key v

  -- The loop that shifts entries back into the hole at `idx`.
  unfoldable pub shift_back : FlatMap V → ℕ → ℕ → ℕ → Option (FlatMap V)
  unfolding can_move home
  shift_back m zero idx probe_idx = none
  shift_back m (suc fuel) idx probe_idx = elim (get_elem? m.entries probe_idx) [
    | none ↦ none
    | some e ↦
        let hole : Entry V = record e { key = empty_key } in
        let moved = record m { entries = set (set m.entries idx e) probe_idx hole } in
        let after_move = shift_back moved fuel probe_idx (next_slot m probe_idx) in
        let after_stay = shift_back m fuel idx (next_slot m probe_idx) in
        if e.key == empty_key
        then some m
        else if can_move idx probe_idx (home m e.key)
        then after_move
        else after_stay
  ]

  unfoldable pub erase_from : FlatMap V → ℕ → ℕ → ℕ → Option (FlatMap V)
  unfolding shift_back
  erase_from m key zero i = none
  erase_from m key (suc fuel) i = elim (get_elem? m.entries i) [
    | none ↦ none
    | some e ↦
        let hole : Entry V = record e { key = empty_key } in
        let holed = record m { entries = set m.entries i hole; size = m.size - 1 } in
        let rest = erase_from m key fuel (next_slot m i) in
        if e.key == empty_key
        then some m
        else if e.key == key
        then shift_back holed (m.capacity + 1) i (next_slot m i)
        else rest
  ]

  unfoldable pub erase : FlatMap V → ℕ → Option (FlatMap V)
  unfolding erase_from home
  erase m key = erase_from m key (m.capacity + 1) (home m key)

  unfoldable pub init : V → ℕ → FlatMap V
  unfolding grow_capacity
  init blank initial =
      let capacity = grow_capacity 64 16 initial in
      record {
        entries = replicate capacity (blank_entry blank);
        capacity = capacity;
        size = 0;
        blank = blank;
      }
