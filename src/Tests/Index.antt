-- ===== src/Tests/Index.antt =====
-- Runs of include/hyperliquid/flat_map.h.
use hyperliquid_matching_eng.Base.{ℕ, ◌≡◌, refl, arith, [], ◌∷◌, ◌++◌, none, some, replicate}
use hyperliquid_matching_eng.FlatMap.{Entry, FlatMap, find, erase, insert, home, hash}
use hyperliquid_matching_eng.FlatMap.Counting.{IsTable, count_taken}
use hyperliquid_matching_eng.FlatMap.Probing.{erase-IsTable}
use hyperliquid_matching_eng.FlatMap.Inserting.{insert-IsTable}
use hyperliquid_matching_eng.FlatMap.Wrapping.{Wraps, erase_loses_first}

abbrev entry : ℕ → ℕ → Entry ℕ
entry k v = record { key = k; value = v }

-- In a table of 16 slots the key 29 belongs to the last slot and the key 30 to the first.
abbrev last : Entry ℕ
last = entry 29 290

abbrev first : Entry ℕ
first = entry 30 300

abbrev table : FlatMap ℕ
table = record {
  entries = first ∷ (replicate 14 (entry 0 0) ++ last ∷ []);
  capacity = 16;
  size = 2;
  blank = 0;
}

table-IsTable : IsTable table
unfolding count_taken
table-IsTable = record { slots = refl; counted = refl; room = omega arith; wide = omega arith }

table-Wraps : Wraps table last first
unfolding home hash
table-Wraps = record {
  slots = refl;
  room = omega arith;
  at_end = refl;
  at_start = refl;
  hole = entry 0 0;
  after = refl;
  is_hole = refl;
  last_home = refl;
  first_home = refl;
  last_full = omega arith;
  first_full = omega arith;
}

insert-IsTable_example :
    (m' : FlatMap ℕ) × (insert table 45 450 ≡ some m') × IsTable m' × (find m' 45 ≡ some 450)
insert-IsTable_example = insert-IsTable table 45 450 (omega arith) table-IsTable

erase-IsTable_example : (m' : FlatMap ℕ) × (erase table 29 ≡ some m') × IsTable m'
erase-IsTable_example = erase-IsTable table 29 table-IsTable

erase_loses_first_example :
    (find table 30 ≡ some 300)
    × ((m' : FlatMap ℕ) × (erase table 29 ≡ some m') × (find m' 30 ≡ none))
erase_loses_first_example = erase_loses_first table last first table-Wraps
