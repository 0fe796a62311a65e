-- ===== src/Book/Opening.antt =====
-- The book that the constructor of include/hyperliquid/order_book.h makes.
use hyperliquid_matching_eng.Base.{
  ℕ, zero, suc, ◌+◌, ◌-◌, ◌≤◌, ◌<◌, ◌≡◌, refl, arith, some, subst, get_elem?, replicate,
  length-replicate, some_inj, inl,
}
use hyperliquid_matching_eng.Base.Int.{sum_ℤ}
use hyperliquid_matching_eng.Types.{SymbolId, PriceBand, Side, bid, ask, empty_bid, empty_ask}
use hyperliquid_matching_eng.Order.{Addr, empty_level}
use hyperliquid_matching_eng.Order.Laws.{IsLevel}
use hyperliquid_matching_eng.Order.Copies.{copies, held}
use hyperliquid_matching_eng.SlabPool.Sharing.{IsShared-same, init-IsShared}
use hyperliquid_matching_eng.PriceLevels
use hyperliquid_matching_eng.PriceLevels.{best_level_ptr}
use hyperliquid_matching_eng.FlatMap
use hyperliquid_matching_eng.FlatMap.Counting.{IsTable}
use hyperliquid_matching_eng.FlatMap.Inserting.{count_taken-replicate}
use hyperliquid_matching_eng.Book.State
use hyperliquid_matching_eng.Book.State.{OrderEntry, OrderBook}
use hyperliquid_matching_eng.Book.Sides.{IsSide, IsArray}
use hyperliquid_matching_eng.Book.Sound.{IsSound}

empty_level-IsLevel : IsLevel empty_level
empty_level-IsLevel = record { distinct = tt; all_open = tt; total = unfold sum_ℤ in refl }

get_elem?-replicate {ℓ} :
    {A : Type ℓ} (n : ℕ) (a x : A) (i : ℕ) → get_elem? (replicate n a) i ≡ some x → a ≡ x
get_elem?-replicate zero a x i h = cc
get_elem?-replicate (suc n) a x zero h = some_inj h
get_elem?-replicate (suc n) a x (suc i) h = get_elem?-replicate n a x i h

held-replicate : (a : Addr) (n : ℕ) → held a (replicate n empty_level) ≡ 0
unfolding held copies
held-replicate a zero = refl
held-replicate a (suc n) = omega (arith, held-replicate a n)

module _ (band : PriceBand) (low : empty_bid < band.min_tick)
    (ordered : band.min_tick ≤ band.max_tick) (high : band.max_tick < empty_ask) where
  init-IsArray : IsArray (PriceLevels.init band)
  unfolding PriceLevels.init
  init-IsArray = record {
    band = record { low = low; high = high };
    ordered = ordered;
    width = length-replicate (band.max_tick + 1 - band.min_tick) empty_level;
    queues = λ i l e. subst IsLevel (get_elem?-replicate _ empty_level l i e) empty_level-IsLevel;
  }

  init-IsSide : (s : Side) → IsSide s (PriceLevels.init band)
  unfolding PriceLevels.init best_level_ptr
  init-IsSide bid = record { array = init-IsArray; marked = inl (refl, refl) }
  init-IsSide ask = record { array = init-IsArray; marked = inl (refl, refl) }

  init-IsTable : IsTable (FlatMap.init State.blank_entry 8192)
  unfolding FlatMap.init FlatMap.grow_capacity
  init-IsTable = record {
    slots = length-replicate 8192 (FlatMap.blank_entry State.blank_entry);
    counted = count_taken-replicate 8192 State.blank_entry;
    room = omega arith;
    wide = omega arith;
  }

  -- Over a band between the sentinels, the constructor makes a sound book.
  pub init-IsSound :
      (slab_objects : ℕ) (symbol_id : SymbolId)
      → 0 < slab_objects
      → IsSound (State.init slab_objects symbol_id band)
  unfolding State.init PriceLevels.init
  init-IsSound slab_objects symbol_id slots = record {
    book = record { bids = init-IsSide bid; asks = init-IsSide ask; table = init-IsTable };
    shared =
        IsShared-same _ (λ a. 0) _
          (λ a. omega (arith, held-replicate a (band.max_tick + 1 - band.min_tick)))
          (init-IsShared slab_objects 2 slots);
  }
