-- ===== src/LatencyTracker.antt =====
-- include/hyperliquid/latency_tracker.h: a buffer of latency samples and their percentiles. The
-- parameter `sort` stands for std::sort. An access out of range is `none`. Writing the CSV file is
-- outside.
pub mod Order
use hyperliquid_matching_eng.Base.{
  ℕ, ◌+◌, ◌-◌, ◌*◌, ◌/◌, ◌%◌, ◌^◌, List, [], ◌∷◌, ◌++◌, Option, some, get_elem?, set, replicate,
  take, drop, ltb, ◌==◌, if◌then◌else◌, ◌>>=◌,
}

pub record LatencyTracker : Type 0 where
  pub samples : List ℕ
  pub count : ℕ
  pub capacity : ℕ
  pub p50 : ℕ
  pub p90 : ℕ
  pub p95 : ℕ
  pub p99 : ℕ
  pub p99_9 : ℕ
  pub p99_99 : ℕ
  pub max : ℕ
  pub min : ℕ
  pub avg : ℕ

unfoldable pub init : ℕ → LatencyTracker
init n = record {
  samples = replicate n 0;
  count = 0;
  capacity = n;
  p50 = 0;
  p90 = 0;
  p95 = 0;
  p99 = 0;
  p99_9 = 0;
  p99_99 = 0;
  max = 0;
  min = 0;
  avg = 0;
}

-- `end - start` of two uint64_t values.
abbrev elapsed : ℕ → ℕ → ℕ
elapsed start_cycles end_cycles = (end_cycles + 2 ^ 64 - start_cycles) % 2 ^ 64

unfoldable pub record_sample : ℕ → ℕ → LatencyTracker → LatencyTracker
record_sample start_cycles end_cycles t =
    if ltb t.count t.capacity
    then record t {
      samples = set t.samples t.count (elapsed start_cycles end_cycles);
      count = t.count + 1;
    }
    else t

-- The sum wraps at 64 bits.
unfoldable pub sum_from : ℕ → List ℕ → ℕ
sum_from sum [] = sum
sum_from sum (x ∷ xs) = sum_from ((sum + x) % 2 ^ 64) xs

unfoldable pub percentiles : List ℕ → LatencyTracker → Option LatencyTracker
unfolding sum_from
percentiles s t = do
  p50 ← get_elem? s (t.count * 50 / 100)
  p90 ← get_elem? s (t.count * 90 / 100)
  p95 ← get_elem? s (t.count * 95 / 100)
  p99 ← get_elem? s (t.count * 99 / 100)
  p99_9 ← get_elem? s (t.count * 999 / 1000)
  p99_99 ← get_elem? s (t.count * 9999 / 10000)
  max ← get_elem? s (t.count - 1)
  min ← get_elem? s 0
  some (record t {
    samples = s;
    p50 = p50;
    p90 = p90;
    p95 = p95;
    p99 = p99;
    p99_9 = p99_9;
    p99_99 = p99_99;
    max = max;
    min = min;
    avg = sum_from 0 (take t.count s) / t.count;
  })

unfoldable pub compute_percentiles : (List ℕ → List ℕ) → LatencyTracker → Option LatencyTracker
unfolding percentiles
compute_percentiles sort t =
    let done = percentiles (sort (take t.count t.samples) ++ drop t.count t.samples) t in
    if t.count == 0 then some t else done
