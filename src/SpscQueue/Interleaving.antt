-- ===== src/SpscQueue/Interleaving.antt =====
-- What holds of the ring of include/hyperliquid/spsc_queue.h at every step of its two threads.
use native.Mathlib.Nat.{mod-eq_of_lt}
use hyperliquid_matching_eng.Base.{
  ℕ, ◌≤◌, ◌<◌, ◌≡◌, refl, sym, ap, ◌∙◌, subst, arith, some, List, [], ◌∷◌, ◌++◌, get_elem?, length,
}
use hyperliquid_matching_eng.SpscQueue.{SpscQueue, init, capacity}
use hyperliquid_matching_eng.SpscQueue.Fifo.{Holds}
use hyperliquid_matching_eng.SpscQueue.Steps.{IsOrderly, ConsumerOk, push-IsOrderly, pop-IsOrderly}
use hyperliquid_matching_eng.SpscQueue.Threads.{
  Consumer, Threads, Interleaved, begin, push_step, pop_step, idle,
}

module _ {T : Type 0} where
  pub Interleaved-IsOrderly :
      (start s : Threads T) → IsOrderly start → Interleaved start s → IsOrderly s
  Interleaved-IsOrderly start s v begin = v
  Interleaved-IsOrderly start s v (push_step {s = a} r p) =
      push-IsOrderly a s p (Interleaved-IsOrderly start a v r)
  Interleaved-IsOrderly start s v (pop_step {s = a} r p) =
      pop-IsOrderly a s p (Interleaved-IsOrderly start a v r)

  pub append_cancel : (xs ys zs : List T) → xs ++ ys ≡ xs ++ zs → ys ≡ zs
  append_cancel [] ys zs h = h
  append_cancel (x ∷ xs) ys zs h = append_cancel xs ys zs (ap tail_of h)
    where
      tail_of : List T → List T
      tail_of [] = []
      tail_of (w ∷ ws) = ws

  pub init-Holds : (n : ℕ) (memory : List T) → length memory ≡ n → 0 < n → Holds (init n memory) []
  unfolding init
  init-Holds n memory same h = record {
    slots = same;
    head_in = h;
    fits = h;
    tail_at = sym (mod-eq_of_lt h);
    items = tt;
  }

  pub idle-IsOrderly : (q : SpscQueue T) → Holds q [] → IsOrderly (idle q)
  unfolding idle
  idle-IsOrderly q v = record {
    in_ring = [];
    ring = v;
    history = refl;
    producer = tt;
    consumer = tt;
  }

  module _ (n : ℕ) (memory : List T) (s : Threads T) (same : length memory ≡ n) (h : 0 < n)
      (r : Interleaved (idle (init n memory)) s) where
    orderly : IsOrderly s
    orderly =
        Interleaved-IsOrderly (idle (init n memory)) s
          (idle-IsOrderly (init n memory) (init-Holds n memory same h)) r

    -- In whatever order the loads and stores of a producer and a consumer follow one another,
    -- from the empty queue of N slots on: the ring always holds, oldest first, exactly the items
    -- of the pushes that have returned true that no pop has returned yet, at most N - 1 of them;
    -- and a consumer that has passed its test for an item finds the oldest of them in the slot
    -- that it is about to read.
    pub Interleaved-Holds :
        (xs : List T) × Holds s.queue xs
        × (s.pushed ≡ s.popped ++ xs)
        × (length xs ≤ capacity s.queue)
        × ((k : ℕ)
            → s.consumer ≡ Consumer.checked k
            → (y : T) × (ys : List T) × (xs ≡ y ∷ ys) × (get_elem? s.queue.buffer k ≡ some y))
    unfolding capacity
    Interleaved-Holds =
        let v = orderly in
        (
          v.in_ring,
          v.ring,
          v.history,
          omega (arith, v.ring.fits),
          λ k e.
              let (y, ys, at, w) = subst (ConsumerOk s.queue v.in_ring) e v.consumer in
              let here = (subst (Holds s.queue) w v.ring).items.0 in
              (y, ys, w, ap (get_elem? s.queue.buffer) at ∙ here),
        )
