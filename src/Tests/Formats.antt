-- ===== src/Tests/Formats.antt =====
-- Runs of include/hyperliquid/json_serializer.h, price_levels_avl.h, latency_tracker.h and
-- binary_protocol.h.
use hyperliquid_matching_eng.Base.{
  ℕ, ◌<◌, ◌≤◌, ◌≡◌, ◌⊎◌, refl, arith, true, false, List, [], ◌∷◌, ◌++◌, some, length, suc, ◌∙◌, ap,
  leb, if◌then◌else◌, Bool-cases, inl, inr,
}
use hyperliquid_matching_eng.Base.Int.{negsuc}
use hyperliquid_matching_eng.Types.{tick, Tick, empty_bid}
use hyperliquid_matching_eng.Order.{empty_level}
use hyperliquid_matching_eng.Json.{codes, show_i64}
use hyperliquid_matching_eng.Json.Parse.{read_int}
use hyperliquid_matching_eng.Json.Decimal.{read_int-show_i64}
use hyperliquid_matching_eng.LevelTree.{Levels, find_next_bid, has_level}
use hyperliquid_matching_eng.LevelTree.Search.{IsMap, NoneBetween, find_next_bid_lem}
use hyperliquid_matching_eng.LatencyTracker.{LatencyTracker, compute_percentiles}
use hyperliquid_matching_eng.LatencyTracker.Order.{
  AllGe, IsSort, IsSorted, InOrder, compute_percentiles-InOrder,
}
use hyperliquid_matching_eng.BinaryProtocol.{TradeRsp, RspType, rsp_code}
use hyperliquid_matching_eng.BinaryProtocol.Messages.{trade_message, serialize}
use hyperliquid_matching_eng.BinaryProtocol.Messages.Laws.{IsRead, parse-serialize}
use hyperliquid_matching_eng.Tests.Book.{resting, level_of}

read_int-show_i64_example :
    read_int (show_i64 (negsuc 41) ++ codes ",\"qty\":5}") ≡ some (negsuc 41)
read_int-show_i64_example =
    read_int-show_i64 (negsuc 41) (codes ",\"qty\":5}") (omega arith) (omega arith) refl

abbrev tree : Levels
tree =
    (tick 90, level_of (resting 1 0 6))
    ∷ (tick 95, empty_level)
    ∷ (tick 99, level_of (resting 2 1 4))
    ∷ []

tree-IsMap : IsMap tree
tree-IsMap = ((omega arith, (omega arith, tt)), ((omega arith, tt), (tt, tt)))

find_next_bid_lem_example :
    ((find_next_bid (tick 99) tree ≡ empty_bid)
      × ((p : Tick) → p < tick 99 → has_level p tree ≡ false))
    ⊎ ((find_next_bid (tick 99) tree < tick 99)
        × (has_level (find_next_bid (tick 99) tree) tree ≡ true)
        × NoneBetween (find_next_bid (tick 99) tree) (tick 99) tree)
find_next_bid_lem_example = find_next_bid_lem (tick 99) tree tree-IsMap (omega arith)

-- An insertion sort, for std::sort.
insert : ℕ → List ℕ → List ℕ
insert x [] = x ∷ []
insert x (y ∷ ys) = let rest = insert x ys in if leb x y then x ∷ y ∷ ys else y ∷ rest

insertion_sort : List ℕ → List ℕ
unfolding insert
insertion_sort [] = []
insertion_sort (x ∷ xs) = insert x (insertion_sort xs)

AllGe-mono : (k x : ℕ) (ys : List ℕ) → k ≤ x → AllGe x ys → AllGe k ys
AllGe-mono k x [] le g = tt
AllGe-mono k x (y ∷ ys) le g = (omega (arith, g.0), AllGe-mono k x ys le g.1)

insert-AllGe : (k x : ℕ) (ys : List ℕ) → k ≤ x → AllGe k ys → AllGe k (insert x ys)
unfolding insert
insert-AllGe k x [] le g = (le, tt)
insert-AllGe k x (y ∷ ys) le g = elim (Bool-cases (leb x y)) [
  | inl h ↦ rw h (le, g)
  | inr h ↦ rw h (g.0, insert-AllGe k x ys le g.1)
]

insert-IsSorted : (x : ℕ) (ys : List ℕ) → IsSorted ys → IsSorted (insert x ys)
unfolding insert
insert-IsSorted x [] s = (tt, tt)
insert-IsSorted x (y ∷ ys) s = elim (Bool-cases (leb x y)) [
  | inl h ↦ let le : x ≤ y = ground (arith, h) in rw h ((le, AllGe-mono x y ys le s.0), s)
  | inr h ↦
      let le : y ≤ x = ground (arith, h) in
      rw h (insert-AllGe y x ys le s.0, insert-IsSorted x ys s.1)
]

length-insert : (x : ℕ) (ys : List ℕ) → length (insert x ys) ≡ suc (length ys)
unfolding insert
length-insert x [] = refl
length-insert x (y ∷ ys) = elim (Bool-cases (leb x y)) [
  | inl h ↦ rw h refl
  | inr h ↦ rw h (ap suc (length-insert x ys))
]

insertion_sort-IsSorted : (xs : List ℕ) → IsSorted (insertion_sort xs)
unfolding insertion_sort
insertion_sort-IsSorted [] = tt
insertion_sort-IsSorted (x ∷ xs) =
    insert-IsSorted x (insertion_sort xs) (insertion_sort-IsSorted xs)

length-insertion_sort : (xs : List ℕ) → length (insertion_sort xs) ≡ length xs
unfolding insertion_sort
length-insertion_sort [] = refl
length-insertion_sort (x ∷ xs) =
    length-insert x (insertion_sort xs) ∙ ap suc (length-insertion_sort xs)

insertion_sort-IsSort : IsSort insertion_sort
insertion_sort-IsSort = record {
  sorted = insertion_sort-IsSorted;
  same_length = length-insertion_sort;
}

abbrev tracker : LatencyTracker
tracker = record {
  samples = 30 ∷ 10 ∷ 20 ∷ 0 ∷ [];
  count = 3;
  capacity = 4;
  p50 = 0;
  p90 = 0;
  p95 = 0;
  p99 = 0;
  p99_9 = 0;
  p99_99 = 0;
  max = 0;
  min = 0;
  avg = 0;
}

compute_percentiles-InOrder_example :
    (r : LatencyTracker) × (compute_percentiles insertion_sort tracker ≡ some r) × InOrder r
compute_percentiles-InOrder_example =
    compute_percentiles-InOrder insertion_sort tracker insertion_sort-IsSort (omega arith)
      (omega arith)

abbrev trade_rsp : TradeRsp
trade_rsp = record {
  header = record { length = 44; type = rsp_code RspType.trade; flags = 0 };
  trade_id = 9;
  maker_order_id = 1;
  taker_order_id = 2;
  price_raw = 10025000000;
  size_raw = 300;
}

parse-serialize_example :
    IsRead (trade_message trade_rsp) (serialize (trade_message trade_rsp) ++ (7 ∷ []))
parse-serialize_example = parse-serialize (trade_message trade_rsp) (7 ∷ []) (
  record { length_fits = omega arith; type_fits = omega arith; flags_fits = omega arith },
  omega arith,
  omega arith,
  omega arith,
  omega arith,
  omega arith,
)
