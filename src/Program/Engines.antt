-- ===== src/Program/Engines.antt =====
-- The engines that src/main.cpp starts.
use hyperliquid_matching_eng.Base.{
  ℕ, zero, suc, ◌+◌, ◌≤◌, ◌<◌, ◌≡◌, refl, ap, subst, arith, some, List, [], ◌∷◌, get_elem?, length,
  some_inj,
}
use hyperliquid_matching_eng.Types.{PriceBand, empty_bid, empty_ask}
use hyperliquid_matching_eng.Command.{OrderCommand, AnyEvent}
use hyperliquid_matching_eng.Json.{Bytes}
use hyperliquid_matching_eng.SpscQueue
use hyperliquid_matching_eng.SpscQueue.Fifo.{Holds}
use hyperliquid_matching_eng.SpscQueue.Interleaving.{init-Holds}
use hyperliquid_matching_eng.Book.State
use hyperliquid_matching_eng.Book.Sound.{IsSound}
use hyperliquid_matching_eng.Book.Opening.{init-IsSound}
use hyperliquid_matching_eng.MatchingEngine
use hyperliquid_matching_eng.MatchingEngine.{MatchingEngine}
use hyperliquid_matching_eng.Program.{ProgramConfig, engines_from, make_engines}

-- An engine at its start, for the symbol of number `i`: its book is sound, and its two queues are
-- empty and have 65536 slots each.
pub record IsStarted (i : ℕ) (e : MatchingEngine) : Type 0 where
  pub symbol_id : e.config.symbol_id ≡ i
  pub book_symbol : e.order_book.symbol_id ≡ i
  pub sound : IsSound e.order_book
  pub input : Holds e.config.input_queue []
  pub input_slots : e.config.input_queue.size_n ≡ 65536
  pub output : Holds e.config.output_queue []
  pub output_slots : e.config.output_queue.size_n ≡ 65536

module _ (slab_objects : ℕ) (commands : List OrderCommand) (events : List AnyEvent)
    (slots : 0 < slab_objects) (command_slots : length commands ≡ 65536)
    (event_slots : length events ≡ 65536) where
  engines_from-IsStarted :
      (band : PriceBand)
      → empty_bid < band.min_tick
      → band.min_tick ≤ band.max_tick
      → band.max_tick < empty_ask
      → (k : ℕ) (names : List Bytes) (i : ℕ) (e : MatchingEngine)
      → get_elem? (engines_from slab_objects commands events band k names) i ≡ some e
      → IsStarted (i + k) e
  unfolding engines_from MatchingEngine.init State.init SpscQueue.init
  engines_from-IsStarted band low ordered high k [] i e h = cc
  engines_from-IsStarted band low ordered high k (s ∷ names) zero e h =
      subst (λ x. IsStarted (0 + k) x) (some_inj h)
        (record {
          symbol_id = omega arith;
          book_symbol = omega arith;
          sound = init-IsSound band low ordered high slab_objects k slots;
          input = init-Holds 65536 commands command_slots (omega arith);
          input_slots = refl;
          output = init-Holds 65536 events event_slots (omega arith);
          output_slots = refl;
        })
  engines_from-IsStarted band low ordered high k (s ∷ names) (suc i) e h =
      subst (λ n. IsStarted n e) (omega arith)
        (engines_from-IsStarted band low ordered high (k + 1) names i e h)

  length-engines_from :
      (band : PriceBand) (k : ℕ) (names : List Bytes)
      → length (engines_from slab_objects commands events band k names) ≡ length names
  unfolding engines_from
  length-engines_from band k [] = refl
  length-engines_from band k (s ∷ names) = ap suc (length-engines_from band (k + 1) names)

  -- For a price band between the sentinels and slabs of at least one node, the program starts one
  -- engine for each symbol, and engine number i serves symbol i: its configuration and its book
  -- bear that number, its book is sound, and its two queues of 65536 slots are empty.
  pub make_engines-IsStarted :
      (c : ProgramConfig)
      → empty_bid < c.min_price
      → c.min_price ≤ c.max_price
      → c.max_price < empty_ask
      → let engines = make_engines slab_objects commands events c in
        (length engines ≡ length c.symbols)
        × ((i : ℕ) (e : MatchingEngine) → get_elem? engines i ≡ some e → IsStarted i e)
  unfolding make_engines
  make_engines-IsStarted c low ordered high =
      let band : PriceBand = record {
        min_tick = c.min_price;
        max_tick = c.max_price;
        tick_size = 1;
      } in
      (
        length-engines_from band 0 c.symbols,
        λ i e h.
            subst (λ n. IsStarted n e) (omega arith)
              (engines_from-IsStarted band low ordered high 0 c.symbols i e h),
      )
