-- ===== src/SpscQueue/Fifo.antt =====
-- The items that the ring buffer of include/hyperliquid/spsc_queue.h holds, oldest first, and what its
-- operations do to them.
use native.Mathlib.Nat.{mod-lt, mod-eq_of_lt, mod-add-mod, mod-eq-sub-mod}
use hyperliquid_matching_eng.Base.{
  ℕ, suc, ◌+◌, ◌-◌, ◌%◌, ◌<◌, ◌≡◌, ◌≢◌, true, false, arith, none, some, List, [], ◌∷◌, ◌++◌, ◌∙◌,
  sym, ap, length, length-append, get_elem?, set, length-set, get_elem?-set_self, get_elem?-set_ne,
  dec_lt,
}
use hyperliquid_matching_eng.SpscQueue.{
  SpscQueue, push, pop, size, capacity, next_index, push_or_wait,
}

module _ {ℓ} {T : Type ℓ} where
  -- The slots from `i` on, round the ring, hold the items in order.
  abbrev pub Items : List T → ℕ → ℕ → List T → Type ℓ
  Items buffer n i [] = Unit
  Items buffer n i (x ∷ xs) = (get_elem? buffer i ≡ some x) × Items buffer n ((i + 1) % n) xs

-- The ring holds the items, oldest first.
pub record Holds {ℓ} {T : Type ℓ} (q : SpscQueue T) (xs : List T) : Type ℓ where
  pub slots : length q.buffer ≡ q.size_n
  pub head_in : q.head < q.size_n
  pub fits : length xs < q.size_n
  pub tail_at : q.tail ≡ (q.head + length xs) % q.size_n
  pub items : Items q.buffer q.size_n q.head xs

-- Fewer than `n` steps lead to another slot.
steps_ne : (n i d : ℕ) → i < n → 0 < d → d < n → (i + d) % n ≢ i
steps_ne n i d hi hd lt e = elim (dec_lt (i + d) n) [
  | yes short ↦ omega (arith, mod-eq_of_lt short)
  | no round ↦
      let f = mod-eq-sub-mod {n = i + d} {m = n} (omega arith) in
      omega (arith, f, mod-eq_of_lt {n = i + d - n} {m = n} (omega arith))
]

step_on : (n i d : ℕ) → ((i + 1) % n + d) % n ≡ (i + suc d) % n
step_on n i d = rw mod-add-mod (ap (λ k. k % n) (omega arith))

module _ {ℓ} {T : Type ℓ} where
  -- Writing behind the last item leaves the items and adds one.
  Items-set :
      (buffer : List T) (n i t : ℕ) (xs : List T) (x : T)
      → length buffer ≡ n
      → i < n
      → length xs < n
      → t ≡ (i + length xs) % n
      → Items buffer n i xs
      → Items (set buffer t x) n i (xs ++ x ∷ [])
  Items-set buffer n i t [] x hl hi lt e h =
      let same : t ≡ i = e ∙ ap (λ k. k % n) (omega arith) ∙ mod-eq_of_lt hi in
      (rw same (get_elem?-set_self buffer i x (omega arith)), tt)
  Items-set buffer n i t (y ∷ xs) x hl hi lt e h =
      let apart : t ≢ i = λ s. steps_ne n i (suc (length xs)) hi (omega arith) lt (sym e ∙ s) in
      (
        get_elem?-set_ne buffer x apart ∙ h.0,
        Items-set buffer n ((i + 1) % n) t xs x hl (mod-lt (i + 1) (omega arith)) (omega arith)
            (e ∙ sym (step_on n i (length xs))) h.1,
      )

  module _ (q : SpscQueue T) (x : T) (xs : List T) where
    -- The ring with the item written behind the others and the tail moved on.
    pub written-Holds :
        Holds q xs
        → length xs < capacity q
        → Holds
            (record q { buffer = set q.buffer q.tail x; tail = next_index q q.tail })
            (xs ++ x ∷ [])
    unfolding capacity
    written-Holds v room =
        let n = q.size_n in
        let next : next_index q q.tail ≡ (q.head + suc (length xs)) % n =
          rw (v.tail_at) (rw mod-add-mod (ap (λ k. k % n) (omega arith))) in
        record {
          slots = length-set q.buffer q.tail x ∙ v.slots;
          head_in = v.head_in;
          fits = omega (arith, length-append xs (x ∷ []));
          tail_at = next ∙ ap (λ k. (q.head + k) % n) (omega (arith, length-append xs (x ∷ [])));
          items =
              Items-set q.buffer n q.head q.tail xs x v.slots v.head_in v.fits v.tail_at v.items;
        }

    -- A push to a ring that holds fewer items than its capacity succeeds, and the ring holds the
    -- item behind the others.
    pub push-Holds :
        Holds q xs
        → length xs < capacity q
        → (r : SpscQueue T) × (push x q ≡ (true, r)) × Holds r (xs ++ x ∷ [])
    unfolding push capacity
    push-Holds v room =
        let n = q.size_n in
        let next : next_index q q.tail ≡ (q.head + suc (length xs)) % n =
          rw (v.tail_at) (rw mod-add-mod (ap (λ k. k % n) (omega arith))) in
        let apart : next_index q q.tail ≢ q.head = λ e.
          steps_ne n q.head (suc (length xs)) v.head_in (omega arith) (omega arith)
            (sym next ∙ e) in
        (
          record q { buffer = set q.buffer q.tail x; tail = next_index q q.tail },
          ground arith,
          written-Holds v room,
        )

    -- In a ring that holds as many items as its capacity, the slot behind the tail is the head.
    pub next_index-full : Holds q xs → length xs ≡ capacity q → next_index q q.tail ≡ q.head
    unfolding capacity
    next_index-full v full =
        let n = q.size_n in
        rw (v.tail_at) (
          rw mod-add-mod (
            ap (λ k. k % n) (omega (arith, v.head_in))
            ∙ mod-eq-sub-mod {n = q.head + n} {m = n} (omega arith)
            ∙ ap (λ k. k % n) (omega arith)
            ∙ mod-eq_of_lt v.head_in))

    -- A push to a ring that holds as many items as its capacity is refused and changes nothing.
    pub push-full : Holds q xs → length xs ≡ capacity q → push x q ≡ (false, q)
    unfolding push
    push-full v full = let next = next_index-full v full in ground arith

    -- The head of a ring that is not empty is not its tail.
    pub head_ne_tail : Holds q (x ∷ xs) → q.head ≢ q.tail
    head_ne_tail v e =
        steps_ne q.size_n q.head (suc (length xs)) v.head_in (omega arith) v.fits
          (sym (e ∙ v.tail_at))

    -- The ring with the head moved on.
    pub taken-Holds : Holds q (x ∷ xs) → Holds (record q { head = next_index q q.head }) xs
    taken-Holds v = record {
      slots = v.slots;
      head_in = mod-lt (q.head + 1) (omega (arith, v.head_in));
      fits = omega (arith, v.fits);
      tail_at = v.tail_at ∙ sym (step_on q.size_n q.head (length xs));
      items = v.items.1;
    }

    -- A pop of a ring that is not empty takes the oldest item, and the ring holds the others in
    -- order.
    pub pop-Holds : Holds q (x ∷ xs) → (r : SpscQueue T) × (pop q ≡ (true, some x, r)) × Holds r xs
    unfolding pop
    pop-Holds v =
        let apart = head_ne_tail v in
        (record q { head = next_index q q.head }, ground (arith, v.items.0), taken-Holds v)

  -- In the empty ring head and tail are the same.
  pub head-empty : (q : SpscQueue T) → Holds q [] → q.head ≡ q.tail
  head-empty q v = sym (v.tail_at ∙ ap (λ k. k % q.size_n) (omega arith) ∙ mod-eq_of_lt v.head_in)

  -- The empty ring has nothing to pop.
  pub pop-empty : (q : SpscQueue T) → Holds q [] → pop q ≡ (false, none, q)
  unfolding pop
  pop-empty q v = let same = head-empty q v in ground arith

  -- For a ring that holds a list of items, wrapped round its end or not, `size` is the length of
  -- the list.
  pub size-Holds : (q : SpscQueue T) (xs : List T) → Holds q xs → size q ≡ length xs
  unfolding size
  size-Holds q xs v = elim (dec_lt (q.head + length xs) q.size_n) [
    | yes short ↦
        let at : q.tail ≡ q.head + length xs = v.tail_at ∙ mod-eq_of_lt short in
        ap (λ k. k % q.size_n) (omega (arith, v.head_in))
        ∙ mod-eq-sub-mod {n = length xs + q.size_n} {m = q.size_n} (omega arith)
        ∙ ap (λ k. k % q.size_n) (omega arith)
        ∙ mod-eq_of_lt v.fits
    | no round ↦
        let at : q.tail ≡ q.head + length xs - q.size_n =
          v.tail_at
          ∙ mod-eq-sub-mod {n = q.head + length xs} {m = q.size_n} (omega arith)
          ∙ mod-eq_of_lt (omega (arith, v.head_in, v.fits)) in
        ap (λ k. k % q.size_n) (omega (arith, v.head_in, v.fits)) ∙ mod-eq_of_lt v.fits
  ]

  -- With a free slot there is nothing to wait for.
  pub push_or_wait-Holds :
      (q : SpscQueue T) (x : T) (xs : List T)
      → Holds q xs
      → length xs < capacity q
      → (r : SpscQueue T) × (push_or_wait x q ≡ some r)
        × Holds r (xs ++ x ∷ [])
        × (capacity r ≡ capacity q)
  unfolding push_or_wait push capacity
  push_or_wait-Holds q x xs v room =
      let (r, e, w) = push-Holds q x xs v room in (r, rw e, w, ground arith)
