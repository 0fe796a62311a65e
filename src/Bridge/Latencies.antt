-- ===== src/Bridge/Latencies.antt =====
-- `record_latency` of tools/engine_bridge.cpp over a run of submissions.
use hyperliquid_matching_eng.Base.{
  ℕ, zero, suc, ◌≤◌, ◌≡◌, refl, sym, ap, ◌∙◌, arith, some, ◌⊎◌, inl, inr, List, [], ◌∷◌, get_elem?,
  some_inj,
}
use hyperliquid_matching_eng.Bridge.{EngineStats, record_latency, no_stats, uint64_max}

-- The calls of `record_latency`, one after another.
unfoldable pub record_all : List ℕ → EngineStats → EngineStats
record_all [] s = s
record_all (x ∷ xs) s = record_all xs (record_latency x s)

abbrev Among : ℕ → List ℕ → Type 0
Among y xs = (i : ℕ) × (get_elem? xs i ≡ some y)

-- What a run says, from any counters on.
record Extremes (xs : List ℕ) (s r : EngineStats) : Type 0 where
  lower : r.min_latency_ns ≤ s.min_latency_ns
  upper : s.max_latency_ns ≤ r.max_latency_ns
  within : (i y : ℕ) → get_elem? xs i ≡ some y → (r.min_latency_ns ≤ y) × (y ≤ r.max_latency_ns)
  least : (r.min_latency_ns ≡ s.min_latency_ns) ⊎ Among r.min_latency_ns xs
  greatest : (r.max_latency_ns ≡ s.max_latency_ns) ⊎ Among r.max_latency_ns xs

-- One call.
record_latency-least :
    (x : ℕ) (s : EngineStats)
    → let r = record_latency x s in
      (r.min_latency_ns ≤ s.min_latency_ns)
      × (r.min_latency_ns ≤ x)
      × ((r.min_latency_ns ≡ s.min_latency_ns) ⊎ (r.min_latency_ns ≡ x))
unfolding record_latency
record_latency-least x s = ground arith

record_latency-greatest :
    (x : ℕ) (s : EngineStats)
    → let r = record_latency x s in
      (s.max_latency_ns ≤ r.max_latency_ns)
      × (x ≤ r.max_latency_ns)
      × ((r.max_latency_ns ≡ s.max_latency_ns) ⊎ (r.max_latency_ns ≡ x))
unfolding record_latency
record_latency-greatest x s = ground arith

behind_first :
    (a b c : ℕ) (x : ℕ) (xs : List ℕ)
    → (a ≡ b) ⊎ Among a xs
    → (b ≡ c) ⊎ (b ≡ x)
    → (a ≡ c) ⊎ Among a (x ∷ xs)
behind_first a b c x xs (inr (i, h)) k = inr (suc i, h)
behind_first a b c x xs (inl h) (inl k) = inl (h ∙ k)
behind_first a b c x xs (inl h) (inr k) = inr (0, ap some (sym (h ∙ k)))

first_within :
    (x : ℕ) (xs : List ℕ) (s r : EngineStats)
    → Extremes xs (record_latency x s) r
    → (i y : ℕ) → get_elem? (x ∷ xs) i ≡ some y
    → (r.min_latency_ns ≤ y) × (y ≤ r.max_latency_ns)
first_within x xs s r v zero y h = (
  omega (arith, v.lower, record_latency-least x s, some_inj h),
  omega (arith, v.upper, record_latency-greatest x s, some_inj h),
)
first_within x xs s r v (suc i) y h = v.within i y h

record_all-Extremes : (xs : List ℕ) (s : EngineStats) → Extremes xs s (record_all xs s)
unfolding record_all
record_all-Extremes [] s = record {
  lower = omega arith;
  upper = omega arith;
  within = λ i y h. cc;
  least = inl refl;
  greatest = inl refl;
}
record_all-Extremes (x ∷ xs) s =
    let v = record_all-Extremes xs (record_latency x s) in
    let (low, low_x, low_or) = record_latency-least x s in
    let (high, high_x, high_or) = record_latency-greatest x s in
    record {
      lower = omega (arith, v.lower);
      upper = omega (arith, v.upper);
      within = first_within x xs s (record_all xs (record_latency x s)) v;
      least = behind_first _ _ _ x xs v.least low_or;
      greatest = behind_first _ _ _ x xs v.greatest high_or;
    }

-- After one or more latencies have been recorded in new statistics, the first of them one of 64
-- bits, every latency lies between the recorded least and greatest one, and both are among the
-- latencies.
pub record_all-bounds :
    (x : ℕ) (xs : List ℕ)
    → x ≤ uint64_max
    → let s = record_all (x ∷ xs) no_stats in
      ((i y : ℕ) → get_elem? (x ∷ xs) i ≡ some y → (s.min_latency_ns ≤ y) × (y ≤ s.max_latency_ns))
      × ((i : ℕ) × (get_elem? (x ∷ xs) i ≡ some s.min_latency_ns))
      × ((i : ℕ) × (get_elem? (x ∷ xs) i ≡ some s.max_latency_ns))
record_all-bounds x xs h =
    let v = record_all-Extremes (x ∷ xs) no_stats in
    let first = v.within 0 x refl in
    (
      v.within,
      elim (v.least) [ inl e ↦ (0, ap some (omega (arith, e, first))) | inr among ↦ among ],
      elim (v.greatest) [ inl e ↦ (0, ap some (omega (arith, e, first))) | inr among ↦ among ],
    )
