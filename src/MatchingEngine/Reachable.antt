-- ===== src/MatchingEngine/Reachable.antt =====
-- The books that an engine can reach (src/matching_engine.cpp): the one that the constructor makes, and
-- what any sequence of commands makes of it.
use hyperliquid_matching_eng.Base.{ℕ, ◌≤◌, ◌<◌, ◌≡◌, some, sym, ◌∙◌, subst, some_inj}
use hyperliquid_matching_eng.Types.{SymbolId, Timestamp, PriceBand, empty_bid, empty_ask}
use hyperliquid_matching_eng.Command.{OrderCommand}
use hyperliquid_matching_eng.Book.State
use hyperliquid_matching_eng.Book.State.{OrderBook}
use hyperliquid_matching_eng.Book.Sound.{IsSound}
use hyperliquid_matching_eng.Book.Opening.{init-IsSound}
use hyperliquid_matching_eng.MatchingEngine.{dispatch}
use hyperliquid_matching_eng.MatchingEngine.Serving.{
  IsSane, dispatch-IsSound, cleared, cleared-IsSound,
}

-- The books that come from `start` by commands that are sane when they are served.
pub data Reachable (now_ns : ℕ → Timestamp) (start : OrderBook) : OrderBook → Type 0 where
  opened : Reachable now_ns start start
  served :
      {b b' : OrderBook} (cmd : OrderCommand)
      → Reachable now_ns start b
      → IsSane cmd.type cmd (cleared b)
      → dispatch now_ns cmd.type cmd (cleared b) ≡ some b'
      → Reachable now_ns start b'

Reachable-IsSound :
    (now_ns : ℕ → Timestamp) (start b : OrderBook)
    → IsSound start
    → Reachable now_ns start b
    → IsSound b
Reachable-IsSound now_ns start b v opened = v
Reachable-IsSound now_ns start b v (served {b = a} cmd r sane e) =
    let (c, f, k) =
      dispatch-IsSound now_ns cmd (cleared a)
        (cleared-IsSound a (Reachable-IsSound now_ns start a v r)) sane in
    subst (λ x. IsSound x) (some_inj (sym f ∙ e)) k

-- Every book that comes from the constructor's, over a band between the sentinels and with slabs
-- of at least one node, by commands that are sane when they are served, is sound: no node is free
-- and in use or in use twice, every queue holds open orders that add up to its total, and the
-- best price of each side is the sentinel or holds orders.
pub reachable-IsSound :
    (now_ns : ℕ → Timestamp) (slab_objects : ℕ) (symbol_id : SymbolId) (band : PriceBand)
    (b : OrderBook)
    → 0 < slab_objects
    → empty_bid < band.min_tick
    → band.min_tick ≤ band.max_tick
    → band.max_tick < empty_ask
    → Reachable now_ns (State.init slab_objects symbol_id band) b
    → IsSound b
reachable-IsSound now_ns slab_objects symbol_id band b slots low ordered high r =
    Reachable-IsSound now_ns (State.init slab_objects symbol_id band) b
      (init-IsSound band low ordered high slab_objects symbol_id slots) r
