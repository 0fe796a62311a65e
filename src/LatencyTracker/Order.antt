-- ===== src/LatencyTracker/Order.antt =====
-- The order of the percentiles of include/hyperliquid/latency_tracker.h.
use hyperliquid_matching_eng.Base.{
  ℕ, zero, suc, ◌-◌, ◌*◌, ◌/◌, ◌<◌, ◌≤◌, ◌≡◌, refl, arith, List, [], ◌∷◌, ◌++◌, some, get_elem?,
  length, length-take, take, drop, ◌∙◌, subst, some_inj,
}
use hyperliquid_matching_eng.LatencyTracker.{
  LatencyTracker, sum_from, percentiles, compute_percentiles,
}

abbrev pub AllGe : ℕ → List ℕ → Type 0
AllGe k [] = Unit {0}
AllGe k (x ∷ xs) = (k ≤ x) × AllGe k xs

-- No element is below an earlier one.
abbrev pub IsSorted : List ℕ → Type 0
IsSorted [] = Unit {0}
IsSorted (x ∷ xs) = AllGe x xs × IsSorted xs

AllGe-at : (k : ℕ) (xs : List ℕ) (j b : ℕ) → AllGe k xs → get_elem? xs j ≡ some b → k ≤ b
AllGe-at k [] j b g e = absurd (ground (arith, e))
AllGe-at k (x ∷ xs) zero b g e = subst (λ y. k ≤ y) (some_inj e) g.0
AllGe-at k (x ∷ xs) (suc j) b g e = AllGe-at k xs j b g.1 e

IsSorted-at :
    (xs : List ℕ) (i j a b : ℕ)
    → IsSorted xs
    → i ≤ j
    → get_elem? xs i ≡ some a
    → get_elem? xs j ≡ some b
    → a ≤ b
IsSorted-at [] i j a b s le e f = absurd (ground (arith, e))
IsSorted-at (x ∷ xs) zero zero a b s le e f = omega (arith, some_inj e, some_inj f)
IsSorted-at (x ∷ xs) zero (suc j) a b s le e f =
    subst (λ y. y ≤ b) (some_inj e) (AllGe-at x xs j b s.0 f)
IsSorted-at (x ∷ xs) (suc i) zero a b s le e f = absurd (omega arith)
IsSorted-at (x ∷ xs) (suc i) (suc j) a b s le e f = IsSorted-at xs i j a b s.1 (omega arith) e f

-- What std::sort promises, as far as the tracker relies on it: a sorted list of the same length.
pub record IsSort (sort : List ℕ → List ℕ) : Type 0 where
  pub sorted : (xs : List ℕ) → IsSorted (sort xs)
  pub same_length : (xs : List ℕ) → length (sort xs) ≡ length xs

pub record InOrder (t : LatencyTracker) : Type 0 where
  pub min_p50 : t.min ≤ t.p50
  pub p50_p90 : t.p50 ≤ t.p90
  pub p90_p95 : t.p90 ≤ t.p95
  pub p95_p99 : t.p95 ≤ t.p99
  pub p99_p99_9 : t.p99 ≤ t.p99_9
  pub p99_9_p99_99 : t.p99_9 ≤ t.p99_99
  pub p99_99_max : t.p99_99 ≤ t.max

-- An element of the first list.
elem_front :
    (xs rest : List ℕ) (i : ℕ)
    → i < length xs
    → (a : ℕ) × (get_elem? xs i ≡ some a) × (get_elem? (xs ++ rest) i ≡ some a)
elem_front [] rest i lt = absurd (omega arith)
elem_front (x ∷ xs) rest zero lt = (x, refl, refl)
elem_front (x ∷ xs) rest (suc i) lt = elem_front xs rest i (omega arith)

percentiles-InOrder :
    (xs rest : List ℕ) (t : LatencyTracker)
    → IsSorted xs
    → length xs ≡ t.count
    → 0 < t.count
    → (r : LatencyTracker) × (percentiles (xs ++ rest) t ≡ some r) × InOrder r
unfolding percentiles
percentiles-InOrder xs rest t sorted len lt =
    let n = t.count in
    let at = λ (i j a b : ℕ). IsSorted-at xs i j a b sorted in
    let (a50, f50, e50) = elem_front xs rest (n * 50 / 100) (omega arith) in
    let (a90, f90, e90) = elem_front xs rest (n * 90 / 100) (omega arith) in
    let (a95, f95, e95) = elem_front xs rest (n * 95 / 100) (omega arith) in
    let (a99, f99, e99) = elem_front xs rest (n * 99 / 100) (omega arith) in
    let (a999, f999, e999) = elem_front xs rest (n * 999 / 1000) (omega arith) in
    let (a9999, f9999, e9999) = elem_front xs rest (n * 9999 / 10000) (omega arith) in
    let (amax, fmax, emax) = elem_front xs rest (n - 1) (omega arith) in
    let (amin, fmin, emin) = elem_front xs rest 0 (omega arith) in
    (
      record t {
        samples = xs ++ rest;
        p50 = a50;
        p90 = a90;
        p95 = a95;
        p99 = a99;
        p99_9 = a999;
        p99_99 = a9999;
        max = amax;
        min = amin;
        avg = sum_from 0 (take n (xs ++ rest)) / n;
      },
      rw (e50, e90, e95, e99, e999, e9999, emax, emin) refl,
      record {
        min_p50 = at 0 (n * 50 / 100) amin a50 (omega arith) fmin f50;
        p50_p90 = at (n * 50 / 100) (n * 90 / 100) a50 a90 (omega arith) f50 f90;
        p90_p95 = at (n * 90 / 100) (n * 95 / 100) a90 a95 (omega arith) f90 f95;
        p95_p99 = at (n * 95 / 100) (n * 99 / 100) a95 a99 (omega arith) f95 f99;
        p99_p99_9 = at (n * 99 / 100) (n * 999 / 1000) a99 a999 (omega arith) f99 f999;
        p99_9_p99_99 = at (n * 999 / 1000) (n * 9999 / 10000) a999 a9999 (omega arith) f999 f9999;
        p99_99_max = at (n * 9999 / 10000) (n - 1) a9999 amax (omega arith) f9999 fmax;
      },
    )

-- With a sort that returns a sorted list of the same length, and at least one sample, all of them
-- in the buffer, the percentiles are computed, and none is below a lower one: minimum, p50, p90,
-- p95, p99, p99.9, p99.99, maximum.
pub compute_percentiles-InOrder :
    (sort : List ℕ → List ℕ) (t : LatencyTracker)
    → IsSort sort
    → 0 < t.count
    → t.count ≤ length t.samples
    → (r : LatencyTracker) × (compute_percentiles sort t ≡ some r) × InOrder r
compute_percentiles-InOrder sort t is lt le =
    let xs = sort (take t.count t.samples) in
    let len : length xs ≡ t.count =
      is.same_length (take t.count t.samples) ∙ omega (arith, length-take t.count t.samples, le) in
    let (r, runs, ordered) =
      percentiles-InOrder xs (drop t.count t.samples) t (is.sorted (take t.count t.samples)) len
        lt in
    (r, unfold compute_percentiles in ground (arith, runs, lt), ordered)
