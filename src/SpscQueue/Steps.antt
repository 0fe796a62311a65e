-- ===== src/SpscQueue/Steps.antt =====
-- What each step of the two threads of include/hyperliquid/spsc_queue.h keeps.
use mathlib.Core.List.{append_assoc}
use hyperliquid_matching_eng.Base.{
  ℕ, ◌+◌, ◌-◌, ◌%◌, ◌<◌, ◌≡◌, ◌≢◌, refl, sym, ap, ◌∙◌, subst, arith, List, [], ◌∷◌, ◌++◌, get_elem?,
  set, length, length-append, some_inj, dec_lt,
}
use hyperliquid_matching_eng.SpscQueue.{SpscQueue, next_index, capacity}
use hyperliquid_matching_eng.SpscQueue.Fifo.{
  Holds, Items, written-Holds, taken-Holds, next_index-full, head-empty,
}
use hyperliquid_matching_eng.SpscQueue.Threads.{
  Producer, Consumer, Threads, PushStep, PopStep, load_tail, refuse, pass, write, store_tail,
  load_head, give_up, go_on, read, store_head,
}

module _ {T : Type 0} where
  -- What the producer knows where it stands, while the ring holds `xs`.
  abbrev pub ProducerOk : SpscQueue T → List T → Producer T → Type 0
  ProducerOk q xs Producer.outside = Unit {0}
  ProducerOk q xs (Producer.loaded item t) = t ≡ q.tail
  ProducerOk q xs (Producer.checked item t) = (t ≡ q.tail) × (length xs < capacity q)
  ProducerOk q xs (Producer.written item t) =
      (t ≡ q.tail)
      × (length xs < capacity q)
      × Holds (record q { tail = next_index q q.tail }) (xs ++ item ∷ [])

  -- What the consumer knows.
  abbrev pub ConsumerOk : SpscQueue T → List T → Consumer T → Type 0
  ConsumerOk q xs Consumer.outside = Unit {0}
  ConsumerOk q xs (Consumer.loaded h) = h ≡ q.head
  ConsumerOk q xs (Consumer.checked h) = (y : T) × (ys : List T) × (h ≡ q.head) × (xs ≡ y ∷ ys)
  ConsumerOk q xs (Consumer.taken h item) = (ys : List T) × (h ≡ q.head) × (xs ≡ item ∷ ys)

  -- The ring holds what has been pushed and not popped, and each thread knows what it has read.
  pub record IsOrderly (s : Threads T) : Type 0 where
    pub in_ring : List T
    pub ring : Holds s.queue in_ring
    pub history : s.pushed ≡ s.popped ++ in_ring
    pub producer : ProducerOk s.queue in_ring s.producer
    pub consumer : ConsumerOk s.queue in_ring s.consumer

  Items-prefix :
      (buffer : List T) (n i : ℕ) (xs ys : List T)
      → Items buffer n i (xs ++ ys)
      → Items buffer n i xs
  Items-prefix buffer n i [] ys v = tt
  Items-prefix buffer n i (x ∷ xs) ys v = (v.0, Items-prefix buffer n ((i + 1) % n) xs ys v.1)

  -- The write of a slot behind the items leaves the items.
  Holds-prefix :
      (q : SpscQueue T) (tail : ℕ) (xs : List T) (x : T)
      → Holds (record q { tail = tail }) (xs ++ x ∷ [])
      → q.tail ≡ (q.head + length xs) % q.size_n
      → Holds q xs
  Holds-prefix q tail xs x v at = record {
    slots = v.slots;
    head_in = v.head_in;
    fits = omega (arith, v.fits, length-append xs (x ∷ []));
    tail_at = at;
    items = Items-prefix q.buffer q.size_n q.head xs (x ∷ []) v.items;
  }

  room_of :
      (q : SpscQueue T) (item : T) (xs : List T)
      → Holds q xs
      → next_index q q.tail ≢ q.head
      → length xs < capacity q
  unfolding capacity
  room_of q item xs v ne = elim (dec_lt (length xs) (q.size_n - 1)) [
    | yes room ↦ room
    | no full ↦ absurd (ne (next_index-full q item xs v (omega (arith, v.fits))))
  ]

  some_item :
      (q : SpscQueue T) (xs : List T)
      → Holds q xs
      → q.head ≢ q.tail
      → (y : T) × (ys : List T) × (xs ≡ y ∷ ys)
  some_item q [] v ne = absurd (ne (head-empty q v))
  some_item q (x ∷ xs) v ne = (x, xs, refl)

  -- What the consumer knows stays true when an item comes in behind.
  ConsumerOk-append :
      (q q' : SpscQueue T) (xs : List T) (item : T) (c : Consumer T)
      → q'.head ≡ q.head
      → ConsumerOk q xs c
      → ConsumerOk q' (xs ++ item ∷ []) c
  ConsumerOk-append q q' xs item Consumer.outside e v = tt
  ConsumerOk-append q q' xs item (Consumer.loaded h) e v = v ∙ sym e
  ConsumerOk-append q q' xs item (Consumer.checked h) e (y, ys, at, w) =
      (y, ys ++ item ∷ [], at ∙ sym e, ap (λ zs. zs ++ item ∷ []) w)
  ConsumerOk-append q q' xs item (Consumer.taken h y) e (ys, at, w) =
      (ys ++ item ∷ [], at ∙ sym e, ap (λ zs. zs ++ item ∷ []) w)

  ConsumerOk-same :
      (q q' : SpscQueue T) (xs : List T) (c : Consumer T)
      → q'.head ≡ q.head
      → ConsumerOk q xs c
      → ConsumerOk q' xs c
  ConsumerOk-same q q' xs Consumer.outside e v = tt
  ConsumerOk-same q q' xs (Consumer.loaded h) e v = v ∙ sym e
  ConsumerOk-same q q' xs (Consumer.checked h) e (y, ys, at, w) = (y, ys, at ∙ sym e, w)
  ConsumerOk-same q q' xs (Consumer.taken h y) e (ys, at, w) = (ys, at ∙ sym e, w)

  -- What the producer knows stays true when the oldest item goes.
  ProducerOk-taken :
      (q : SpscQueue T) (y : T) (ys : List T) (p : Producer T)
      → ProducerOk q (y ∷ ys) p
      → ProducerOk (record q { head = next_index q q.head }) ys p
  unfolding capacity
  ProducerOk-taken q y ys Producer.outside v = tt
  ProducerOk-taken q y ys (Producer.loaded item t) v = v
  ProducerOk-taken q y ys (Producer.checked item t) v = (v.0, omega (arith, v.1))
  ProducerOk-taken q y ys (Producer.written item t) (at, room, w) =
      (at, omega arith, taken-Holds (record q { tail = next_index q q.tail }) y (ys ++ item ∷ []) w)

  pub push-IsOrderly : (s s' : Threads T) → PushStep s s' → IsOrderly s → IsOrderly s'
  unfolding capacity
  push-IsOrderly s s' (load_tail item e) v = record {
    in_ring = v.in_ring;
    ring = v.ring;
    history = v.history;
    producer = refl;
    consumer = v.consumer;
  }
  push-IsOrderly s s' (refuse e full) v = record {
    in_ring = v.in_ring;
    ring = v.ring;
    history = v.history;
    producer = tt;
    consumer = v.consumer;
  }
  push-IsOrderly s s' (pass {item} {t} e free) v =
      let at : t ≡ s.queue.tail = subst (ProducerOk s.queue v.in_ring) e v.producer in
      record {
        in_ring = v.in_ring;
        ring = v.ring;
        history = v.history;
        producer = (
          at,
          room_of s.queue item v.in_ring v.ring (λ f. free (ap (next_index s.queue) at ∙ f)),
        );
        consumer = v.consumer;
      }
  push-IsOrderly s s' (write {item} {t} e) v =
      let q = s.queue in
      let (at, room) = subst (ProducerOk q v.in_ring) e v.producer in
      let q' = record q { buffer = set q.buffer t item } in
      let w : Holds (record q' { tail = next_index q q.tail }) (v.in_ring ++ item ∷ []) =
        subst
          (λ k.
            Holds (record q { buffer = set q.buffer k item; tail = next_index q q.tail })
              (v.in_ring ++ item ∷ []))
          (sym at) (written-Holds q item v.in_ring v.ring room) in
      record {
        in_ring = v.in_ring;
        ring = Holds-prefix q' (next_index q q.tail) v.in_ring item w v.ring.tail_at;
        history = v.history;
        producer = (at, room, w);
        consumer = ConsumerOk-same q q' v.in_ring s.consumer refl v.consumer;
      }
  push-IsOrderly s s' (store_tail {item} {t} e) v =
      let q = s.queue in
      let (at, room, w) = subst (ProducerOk q v.in_ring) e v.producer in
      let q' = record q { tail = next_index q t } in
      record {
        in_ring = v.in_ring ++ item ∷ [];
        ring =
            subst (λ k. Holds (record q { tail = next_index q k }) (v.in_ring ++ item ∷ []))
              (sym at) w;
        history =
            ap (λ zs. zs ++ item ∷ []) v.history ∙ append_assoc s.popped v.in_ring (item ∷ []);
        producer = tt;
        consumer = ConsumerOk-append q q' v.in_ring item s.consumer refl v.consumer;
      }

  pub pop-IsOrderly : (s s' : Threads T) → PopStep s s' → IsOrderly s → IsOrderly s'
  pop-IsOrderly s s' (load_head e) v = record {
    in_ring = v.in_ring;
    ring = v.ring;
    history = v.history;
    producer = v.producer;
    consumer = refl;
  }
  pop-IsOrderly s s' (give_up e empty) v = record {
    in_ring = v.in_ring;
    ring = v.ring;
    history = v.history;
    producer = v.producer;
    consumer = tt;
  }
  pop-IsOrderly s s' (go_on {h} e more) v =
      let at : h ≡ s.queue.head = subst (ConsumerOk s.queue v.in_ring) e v.consumer in
      let (y, ys, w) = some_item s.queue v.in_ring v.ring (λ f. more (at ∙ f)) in
      record {
        in_ring = v.in_ring;
        ring = v.ring;
        history = v.history;
        producer = v.producer;
        consumer = (y, ys, at, w);
      }
  pop-IsOrderly s s' (read {h} {item} e here) v =
      let (y, ys, at, w) = subst (ConsumerOk s.queue v.in_ring) e v.consumer in
      let r = subst (Holds s.queue) w v.ring in
      let same : y ≡ item =
        some_inj (sym (r.items.0) ∙ ap (get_elem? s.queue.buffer) (sym at) ∙ here) in
      record {
        in_ring = v.in_ring;
        ring = v.ring;
        history = v.history;
        producer = v.producer;
        consumer = (ys, at, w ∙ ap (λ z. z ∷ ys) same);
      }
  pop-IsOrderly s s' (store_head {h} {item} e) v =
      let q = s.queue in
      let (ys, at, w) = subst (ConsumerOk q v.in_ring) e v.consumer in
      record {
        in_ring = ys;
        ring =
            subst (λ k. Holds (record q { head = next_index q k }) ys) (sym at)
              (taken-Holds q item ys (subst (Holds q) w v.ring));
        history =
            v.history ∙ ap (λ zs. s.popped ++ zs) w ∙ sym (append_assoc s.popped (item ∷ []) ys);
        producer =
            subst (λ k. ProducerOk (record q { head = next_index q k }) ys s.producer) (sym at)
              (ProducerOk-taken q item ys s.producer
                (subst (λ zs. ProducerOk q zs s.producer) w v.producer));
        consumer = tt;
      }
