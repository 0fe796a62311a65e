-- ===== src/Bridge/Active.antt =====
-- What the loop of tools/engine_bridge.cpp keeps from line to line.
use hyperliquid_matching_eng.Base.{
  ℕ, suc, ◌+◌, ◌-◌, ◌%◌, ◌^◌, ◌<◌, ◌≡◌, refl, sym, ap, ◌∙◌, arith, some, none, true, false, ◌⊎◌,
  inl, inr, List, [], ◌∷◌, get_elem?, length, leb, Bool-cases, Option-cases, ◌||◌,
}
use hyperliquid_matching_eng.Base.Int.{0ℤ, ◌≤ℤ◌, ltb_ℤ}
use hyperliquid_matching_eng.Types.{OrderId, Tick, Quantity, Side}
use hyperliquid_matching_eng.Command.{OrderCommand, ExecResult, AnyEvent, trade, book_update}
use hyperliquid_matching_eng.Json.{Bytes, codes, same_text}
use hyperliquid_matching_eng.Book.Sound.{IsSound}
use hyperliquid_matching_eng.MatchingEngine.Serving.{
  InBand, IsKnown, submit_limit-Serves, cancel-Serves, cleared-IsSound,
}
use hyperliquid_matching_eng.Bridge.{
  EngineStats, get_json_string, record_latency, count_trades, up, down, reset,
}
use hyperliquid_matching_eng.Bridge.Loop.{
  Bridge, Outside, erase_active, flush, track, counted, submit, handle_order, handle_cancel,
  write_stats, handle_reset, periodic, handle_line, get_json_double, side_of, order_command,
  is_empty_text,
}
use hyperliquid_matching_eng.Bridge.Identifiers.{
  AllBelow, AllBelow-up, put_active-AllBelow, erase_active-AllBelow,
}

-- The book is sound, `resting_orders` counts the active orders, and their identifiers are earlier
-- ones.
pub record IsRunning (s : Bridge) : Type 0 where
  pub sound : IsSound s.book
  pub counted : s.stats.resting_orders ≡ length s.active_orders % 2 ^ 64
  pub ids : AllBelow s.order_id s.active_orders

up-mod : (n : ℕ) → (n % 2 ^ 64 + 1) % 2 ^ 64 ≡ suc n % 2 ^ 64
up-mod n = omega arith

down-mod : (n : ℕ) → (suc n % 2 ^ 64 + 2 ^ 64 - 1) % 2 ^ 64 ≡ n % 2 ^ 64
down-mod n = omega arith

count_trades-resting :
    (es : List AnyEvent) (s : EngineStats) → (count_trades es s).resting_orders ≡ s.resting_orders
unfolding count_trades
count_trades-resting [] s = refl
count_trades-resting (trade t ∷ es) s = count_trades-resting es _
count_trades-resting (book_update u ∷ es) s = count_trades-resting es s

flush-IsRunning : (s : Bridge) → IsRunning s → IsRunning (flush s)
unfolding flush
flush-IsRunning s v = record {
  sound = cleared-IsSound s.book v.sound;
  counted = count_trades-resting s.book.events s.stats ∙ v.counted;
  ids = v.ids;
}

up-next : (n : ℕ) → n + 1 < 2 ^ 64 → up n ≡ n + 1
up-next n h = omega arith

-- An order that is new among the active ones.
track-IsRunning :
    (cmd : OrderCommand) (r : ExecResult) (s : Bridge)
    → IsSound s.book
    → s.stats.resting_orders ≡ length s.active_orders % 2 ^ 64
    → AllBelow cmd.order_id s.active_orders
    → s.order_id ≡ cmd.order_id + 1
    → IsRunning (track cmd r s)
unfolding track
track-IsRunning cmd r s sound count ids f = elim (Bool-cases (ltb_ℤ 0ℤ r.remaining)) [
  | inl rests ↦
      let (below, more) = put_active-AllBelow cmd.order_id cmd s.active_orders ids in
      rw rests (record {
        sound = sound;
        counted =
            ap (λ k. (k + 1) % 2 ^ 64) count
            ∙ up-mod (length s.active_orders)
            ∙ ap (λ k. k % 2 ^ 64) (sym more);
        ids = rw f below;
      })
  | inr filled ↦ rw filled (record {
    sound = sound;
    counted = count;
    ids = rw f (AllBelow-up cmd.order_id s.active_orders ids);
  })
]

module _ {Double : Type 0} (w : Outside Double) where
  counted-IsRunning : (s : Bridge) → IsRunning s → IsRunning (counted w s)
  unfolding record_latency
  counted-IsRunning s v = record { sound = v.sound; counted = v.counted; ids = v.ids }

  write_stats-IsRunning : (s : Bridge) → IsRunning s → IsRunning (write_stats w s)
  unfolding write_stats
  write_stats-IsRunning s v = record { sound = v.sound; counted = v.counted; ids = v.ids }

  handle_reset-IsRunning : (s : Bridge) → IsRunning s → IsRunning (handle_reset s)
  unfolding handle_reset reset
  handle_reset-IsRunning s v = record { sound = v.sound; counted = refl; ids = tt }

  periodic-IsRunning : (s : Bridge) → IsRunning s → IsRunning (periodic w s)
  unfolding periodic
  periodic-IsRunning s v =
      elim (Bool-cases
        (leb 100 ((s.stats.orders_processed + 2 ^ 64 - s.last_stats_output) % 2 ^ 64))) [
          | inl due ↦ rw due (
              write_stats-IsRunning (record s { last_stats_output = s.stats.orders_processed })
                (record { sound = v.sound; counted = v.counted; ids = v.ids }))
          | inr early ↦ rw early v
        ]

  submit-IsRunning :
      (px : Tick) (qty : Quantity) (side : Side) (s : Bridge)
      → IsRunning s
      → InBand s.book px
      → 0ℤ ≤ℤ qty
      → 0 < s.order_id
      → s.order_id + 1 < 2 ^ 64
      → let cmd = order_command w s.order_id px qty side in
        (s' : Bridge) × (submit w cmd (record s { order_id = up s.order_id }) ≡ some s')
        × IsRunning s'
  unfolding submit flush record_latency
  submit-IsRunning px qty side s v band hq pos room =
      let cmd = order_command w s.order_id px qty side in
      let (r, b, e, sound) =
        submit_limit-Serves w.now_ns cmd s.book v.sound band (omega (arith, pos)) hq in
      let t = record s { order_id = up s.order_id; book = b } in
      (
        track cmd r (counted w (flush t)),
        rw e refl,
        track-IsRunning cmd r (counted w (flush t)) (cleared-IsSound b sound)
            (count_trades-resting b.events s.stats ∙ v.counted) v.ids (up-next s.order_id room),
      )

  handle_cancel-IsRunning :
      (s : Bridge)
      → IsRunning s
      → ((it : OrderId × OrderCommand)
          → get_elem? s.active_orders (w.first s.active_orders) ≡ some it
          → IsKnown (it.0) s.book)
      → (s' : Bridge) × (handle_cancel w s ≡ some s') × IsRunning s'
  unfolding handle_cancel flush
  handle_cancel-IsRunning s v known =
      elim (Option-cases (get_elem? s.active_orders (w.first s.active_orders))) [
        | inl none_left ↦ (s, rw (none_left, handle_cancel) refl, v)
        | inr (it, here) ↦
            let (found, b, e, sound) =
              cancel-Serves w.now_ns (it.0) s.book v.sound (known it here) in
            let (below, less) =
              erase_active-AllBelow s.order_id (w.first s.active_orders) it s.active_orders v.ids
                here in
            let after = flush (record s { book = b }) in
            (
              record after {
                stats = record (after.stats) { resting_orders = down after.stats.resting_orders };
                active_orders = erase_active (it.0) after.active_orders;
              },
              rw (here, handle_cancel, e) refl,
              record {
                sound = cleared-IsSound b sound;
                counted =
                    ap down (
                      count_trades-resting b.events s.stats
                      ∙ v.counted
                      ∙ ap (λ k. k % 2 ^ 64) (sym less))
                    ∙ down-mod (length (erase_active (it.0) s.active_orders));
                ids = below;
              },
            )
      ]

  -- What a line has to be: where it is an order, its price and its size are read as numbers, and if
  -- both are positive, the price is in the band and the quantity not negative; where it is a cancellation, the index leads to the first of the active
  -- orders or does not know it.
  pub record IsReady (line : Bytes) (s : Bridge) : Type 0 where
    pub order :
        same_text (get_json_string line (codes "cmd")) (codes "order") ≡ true
        → (price size : Double) × (get_json_double w line (codes "price") ≡ some price)
          × (get_json_double w line (codes "size") ≡ some size)
          × ((w.not_positive price || w.not_positive size) ≡ false
              → InBand s.book (w.to_ticks price) × (0ℤ ≤ℤ w.to_qty size))
    pub known :
        (it : OrderId × OrderCommand)
        → get_elem? s.active_orders (w.first s.active_orders) ≡ some it
        → IsKnown (it.0) s.book
    pub started : 0 < s.order_id
    pub room : s.order_id + 1 < 2 ^ 64

  handle_order-IsRunning :
      (line : Bytes) (s : Bridge)
      → IsRunning s
      → IsReady line s
      → same_text (get_json_string line (codes "cmd")) (codes "order") ≡ true
      → (handle_order w line s ≡ some none)
        ⊎ ((s' : Bridge) × (handle_order w line s ≡ some (some s')) × IsRunning s')
  unfolding handle_order
  handle_order-IsRunning line s v ready is_order =
      let (price, size, has_price, has_size, fine) = ready.order is_order in
      elim (Bool-cases (w.not_positive price || w.not_positive size)) [
        | inl skipped ↦ inl (rw (has_price, has_size, skipped) refl)
        | inr good ↦
            let (band, hq) = fine good in
            let (s', e, k) =
              submit-IsRunning (w.to_ticks price) (w.to_qty size)
                (side_of (get_json_string line (codes "side"))) s v band hq ready.started
                ready.room in
            inr (s', rw (has_price, has_size, good, e) refl, k)
      ]

  -- The loop of the bridge: from a state whose book is sound, whose count of resting orders is
  -- the number of its active orders modulo 2^64, and whose active orders have earlier identifiers
  -- than the next one, a line returns and leaves such a state, if the price and the size of an
  -- order line are read as numbers and, where both are positive, the price is one of the band and
  -- the quantity not negative, the index leads to the first of the active orders or does not know
  -- it, and the next identifier is positive and not at the end of its 64 bits.
  pub handle_line-IsRunning :
      (line : Bytes) (s : Bridge)
      → IsRunning s
      → IsReady line s
      → (s' : Bridge) × (handle_line w line s ≡ some s') × IsRunning s'
  unfolding handle_line
  handle_line-IsRunning line s v ready =
      let cmd = get_json_string line (codes "cmd") in
      elim (Bool-cases (is_empty_text line)) [
        | inl empty ↦ (s, rw empty refl, v)
        | inr filled ↦ elim (Bool-cases (same_text cmd (codes "order"))) [
          | inl is_order ↦ elim (handle_order-IsRunning line s v ready is_order) [
            | inl e ↦ (s, rw (filled, is_order, e) refl, v)
            | inr (s', e, k) ↦
                (periodic w s', rw (filled, is_order, e) refl, periodic-IsRunning s' k)
          ]
          | inr not_order ↦ elim (Bool-cases (same_text cmd (codes "cancel"))) [
            | inl is_cancel ↦
                let (s', e, k) = handle_cancel-IsRunning s v ready.known in
                (periodic w s', rw (filled, not_order, is_cancel, e) refl, periodic-IsRunning s' k)
            | inr not_cancel ↦ elim (Bool-cases (same_text cmd (codes "stats"))) [
              | inl is_stats ↦ (
                periodic w (write_stats w s),
                rw (filled, not_order, not_cancel, is_stats) refl,
                periodic-IsRunning _ (write_stats-IsRunning s v),
              )
              | inr not_stats ↦ elim (Bool-cases (same_text cmd (codes "reset"))) [
                | inl is_reset ↦ (
                  periodic w (handle_reset s),
                  rw (filled, not_order, not_cancel, not_stats, is_reset) refl,
                  periodic-IsRunning _ (handle_reset-IsRunning s v),
                )
                | inr other ↦ (
                  periodic w s,
                  rw (filled, not_order, not_cancel, not_stats, other) refl,
                  periodic-IsRunning s v,
                )
              ]
            ]
          ]
        ]
      ]
