-- ===== src/SpscQueue/Popping.antt =====
-- A `pop` of include/hyperliquid/spsc_queue.h that runs while an item is in the ring, step by step.
use hyperliquid_matching_eng.Base.{
  ℕ, zero, suc, ◌<◌, ◌≤◌, ◌≡◌, ◌≢◌, refl, sym, ap, ◌∙◌, subst, arith, some, some_inj, List, [], ◌∷◌,
  ◌++◌, get_elem?, length,
}
use hyperliquid_matching_eng.SpscQueue.{init, next_index}
use hyperliquid_matching_eng.SpscQueue.Fifo.{Holds, head_ne_tail}
use hyperliquid_matching_eng.SpscQueue.Interleaving.{
  Interleaved-IsOrderly, idle-IsOrderly, init-Holds, append_cancel,
}
use hyperliquid_matching_eng.SpscQueue.Threads.{
  Consumer, Threads, Interleaved, PopStep, PopSteps, stays, goes_on, idle, load_head, give_up,
  go_on, read, store_head,
}

module _ {T : Type 0} where
  -- Where a consumer stands, as a number, and what it has read there.
  place : Consumer T → ℕ
  place Consumer.outside = 0
  place (Consumer.loaded h) = 1
  place (Consumer.checked h) = 2
  place (Consumer.taken h y) = 3

  index_of : Consumer T → ℕ
  index_of Consumer.outside = 0
  index_of (Consumer.loaded h) = h
  index_of (Consumer.checked h) = h
  index_of (Consumer.taken h y) = h

  item_of : Consumer T → List T
  item_of (Consumer.taken h y) = y ∷ []
  item_of _ = []

  -- Each place has one step.
  outside_step :
      (s s' : Threads T)
      → s.consumer ≡ Consumer.outside
      → PopStep s s'
      → s' ≡ record s { consumer = Consumer.loaded s.queue.head }
  unfolding place
  outside_step s s' e (load_head f) = refl
  outside_step s s' e (give_up f g) = let p = ap place (sym e ∙ f) in absurd (omega (arith, p))
  outside_step s s' e (go_on f g) = let p = ap place (sym e ∙ f) in absurd (omega (arith, p))
  outside_step s s' e (read f g) = let p = ap place (sym e ∙ f) in absurd (omega (arith, p))
  outside_step s s' e (store_head f) = let p = ap place (sym e ∙ f) in absurd (omega (arith, p))

  loaded_step :
      (s s' : Threads T) (h : ℕ)
      → s.consumer ≡ Consumer.loaded h
      → h ≢ s.queue.tail
      → PopStep s s'
      → s' ≡ record s { consumer = Consumer.checked h }
  unfolding place index_of
  loaded_step s s' h e ne (load_head f) = let p = ap place (sym e ∙ f) in absurd (omega (arith, p))
  loaded_step s s' h e ne (give_up f g) = absurd (ne (ap index_of (sym e ∙ f) ∙ g))
  loaded_step s s' h e ne (go_on f g) =
      ap (λ k. record s { consumer = Consumer.checked k }) (ap index_of (sym f ∙ e))
  loaded_step s s' h e ne (read f g) = let p = ap place (sym e ∙ f) in absurd (omega (arith, p))
  loaded_step s s' h e ne (store_head f) = let p = ap place (sym e ∙ f) in absurd (omega (arith, p))

  checked_step :
      (s s' : Threads T) (h : ℕ) (y : T)
      → s.consumer ≡ Consumer.checked h
      → get_elem? s.queue.buffer h ≡ some y
      → PopStep s s'
      → s' ≡ record s { consumer = Consumer.taken h y }
  unfolding place index_of
  checked_step s s' h y e at (load_head f) =
      let p = ap place (sym e ∙ f) in absurd (omega (arith, p))
  checked_step s s' h y e at (give_up f g) =
      let p = ap place (sym e ∙ f) in absurd (omega (arith, p))
  checked_step s s' h y e at (go_on f g) = let p = ap place (sym e ∙ f) in absurd (omega (arith, p))
  checked_step s s' h y e at (read {h = k} {item = z} f g) =
      let same : k ≡ h = ap index_of (sym f ∙ e) in
      let value : z ≡ y = some_inj (sym g ∙ ap (get_elem? s.queue.buffer) same ∙ at) in
      λ i. record s { consumer = Consumer.taken (same i) (value i) }
  checked_step s s' h y e at (store_head f) =
      let p = ap place (sym e ∙ f) in absurd (omega (arith, p))

  -- The consumer has returned from `pop` with an item.
  abbrev returned : Threads T → ℕ → T → Threads T
  returned s h y = record s {
    queue = record (s.queue) { head = next_index s.queue h };
    consumer = Consumer.outside;
    popped = s.popped ++ y ∷ [];
  }

  taken_step :
      (s s' : Threads T) (h : ℕ) (y : T)
      → s.consumer ≡ Consumer.taken h y
      → PopStep s s'
      → s' ≡ returned s h y
  unfolding place index_of item_of
  taken_step s s' h y e (load_head f) = let p = ap place (sym e ∙ f) in absurd (omega (arith, p))
  taken_step s s' h y e (give_up f g) = let p = ap place (sym e ∙ f) in absurd (omega (arith, p))
  taken_step s s' h y e (go_on f g) = let p = ap place (sym e ∙ f) in absurd (omega (arith, p))
  taken_step s s' h y e (read f g) = let p = ap place (sym e ∙ f) in absurd (omega (arith, p))
  taken_step s s' h y e (store_head {h = k} {item = z} f) =
      let same = ap index_of (sym f ∙ e) in
      let value = ap item_of (sym f ∙ e) in
      λ i. record s {
        queue = record (s.queue) { head = next_index s.queue (same i) };
        consumer = Consumer.outside;
        popped = s.popped ++ value i;
      }

  -- Where the consumer is after so many of its steps.
  on_the_way : Threads T → T → ℕ → Threads T
  on_the_way s y zero = s
  on_the_way s y (suc zero) = record s { consumer = Consumer.loaded s.queue.head }
  on_the_way s y (suc (suc zero)) = record s { consumer = Consumer.checked s.queue.head }
  on_the_way s y (suc (suc (suc zero))) = record s { consumer = Consumer.taken s.queue.head y }
  on_the_way s y (suc (suc (suc (suc n)))) = returned s s.queue.head y

  early_popped : (s : Threads T) (y : T) (n : ℕ) → n < 4 → (on_the_way s y n).popped ≡ s.popped
  unfolding on_the_way
  early_popped s y zero lt = refl
  early_popped s y (suc zero) lt = refl
  early_popped s y (suc (suc zero)) lt = refl
  early_popped s y (suc (suc (suc zero))) lt = refl
  early_popped s y (suc (suc (suc (suc n)))) lt = absurd (omega (arith, lt))

  module _ (s : Threads T) (y : T) (ys : List T) (ring : Holds s.queue (y ∷ ys))
      (out : s.consumer ≡ Consumer.outside) where
    one_step :
        (n : ℕ) (s' : Threads T)
        → n < 4
        → PopStep (on_the_way s y n) s'
        → s' ≡ on_the_way s y (suc n)
    unfolding on_the_way
    one_step zero s' lt p = outside_step s s' out p
    one_step (suc zero) s' lt p =
        loaded_step (record s { consumer = Consumer.loaded s.queue.head }) s' s.queue.head refl
          (head_ne_tail s.queue y ys ring) p
    one_step (suc (suc zero)) s' lt p =
        checked_step (record s { consumer = Consumer.checked s.queue.head }) s' s.queue.head y refl
          (ring.items.0) p
    one_step (suc (suc (suc zero))) s' lt p =
        taken_step (record s { consumer = Consumer.taken s.queue.head y }) s' s.queue.head y refl p
    one_step (suc (suc (suc (suc n)))) s' lt p = absurd (omega (arith, lt))

    has_step : (n : ℕ) → n < 4 → PopStep (on_the_way s y n) (on_the_way s y (suc n))
    unfolding on_the_way
    has_step zero lt = load_head out
    has_step (suc zero) lt = go_on refl (head_ne_tail s.queue y ys ring)
    has_step (suc (suc zero)) lt = read refl (ring.items.0)
    has_step (suc (suc (suc zero))) lt = store_head refl
    has_step (suc (suc (suc (suc n)))) lt = absurd (omega (arith, lt))

    steps_lem : (n : ℕ) (s' : Threads T) → n ≤ 4 → PopSteps s n s' → s' ≡ on_the_way s y n
    unfolding on_the_way
    steps_lem n s' le stays = refl
    steps_lem n s' le (goes_on {n = m} {s = a} r p) =
        let here = steps_lem m a (omega (arith, le)) r in
        one_step m s' (omega (arith, le)) (subst (λ z. PopStep z s') here p)

-- From every state that the two threads reach and where the consumer is outside `pop` and an item
-- has been pushed and not popped, wherever the producer stands: while the consumer has made fewer
-- than four steps of its own, it has popped nothing more and can make another; and whichever four
-- steps it makes, `pop` has returned true with the oldest such item, and the producer is where it
-- was.
pub Interleaved-pops :
    {T : Type 0} (n : ℕ) (memory : List T) (s : Threads T) (y : T) (ys : List T)
    → length memory ≡ n
    → 0 < n
    → Interleaved (idle (init n memory)) s
    → s.consumer ≡ Consumer.outside
    → s.pushed ≡ s.popped ++ y ∷ ys
    → ((k : ℕ) (s' : Threads T)
        → k < 4
        → PopSteps s k s'
        → (s'.popped ≡ s.popped) × ((s'' : Threads T) × PopStep s' s''))
      × ((s' : Threads T)
          → PopSteps s 4 s'
          → (s'.popped ≡ s.popped ++ y ∷ [])
            × (s'.pushed ≡ s.pushed)
            × (s'.producer ≡ s.producer)
            × (s'.consumer ≡ Consumer.outside))
unfolding on_the_way
Interleaved-pops {T = T} n memory s y ys same h r out more =
    let v =
      Interleaved-IsOrderly (idle (init n memory)) s
        (idle-IsOrderly (init n memory) (init-Holds n memory same h)) r in
    let w : v.in_ring ≡ y ∷ ys = append_cancel s.popped v.in_ring (y ∷ ys) (sym v.history ∙ more) in
    let ring = subst (Holds s.queue) w v.ring in
    (
      λ k s' lt p.
          let at = steps_lem s y ys ring out k s' (omega (arith, lt)) p in
          (
            ap (λ (z : Threads T). z.popped) at ∙ early_popped s y k lt,
            (
              on_the_way s y (suc k),
              subst (λ z. PopStep z (on_the_way s y (suc k))) (sym at)
                  (has_step s y ys ring out k lt),
            ),
          ),
      λ s' p.
          let at = steps_lem s y ys ring out 4 s' (omega arith) p in
          (
            ap (λ (z : Threads T). z.popped) at,
            ap (λ (z : Threads T). z.pushed) at,
            ap (λ (z : Threads T). z.producer) at,
            ap (λ (z : Threads T). z.consumer) at,
          ),
    )
