-- ===== src/Book/Submit.antt =====
-- include/hyperliquid/order_book.h: `submit_limit` and `submit_market`.
use hyperliquid_matching_eng.Base.{
  ℕ, Bool, true, false, ◌&&◌, Option, some, ◌==◌, ltb, not, if◌then◌else◌, ◌>>=◌,
}
use hyperliquid_matching_eng.Base.Int.{◌-ℤ◌, ltb_ℤ, 0ℤ}
use hyperliquid_matching_eng.Types.{
  Tick, Quantity, Timestamp, Side, bid, ask, TimeInForce, gtc, ioc, fok, gtd, has_stp,
}
use hyperliquid_matching_eng.Command.{OrderCommand, ExecResult, exec_result}
use hyperliquid_matching_eng.Order.{Order, enqueue}
use hyperliquid_matching_eng.PriceLevels.{get_level, put_level}
use hyperliquid_matching_eng.SlabPool
use hyperliquid_matching_eng.FlatMap
use hyperliquid_matching_eng.Book.State.{
  OrderBook, levels_of, with_levels, best_of, empty_of, set_best, emit_book_update, opposite,
}
use hyperliquid_matching_eng.Book.Matching.{
  Incoming, past_limit, match_against_side, check_fok_liquidity,
}

-- The price is better than the best one on its side: above the best bid, below the best ask.
abbrev pub improves : Side → Tick → Tick → Bool
improves bid px best = ltb best px
improves ask px best = ltb px best

abbrev pub incoming : OrderCommand → Tick → Incoming
incoming cmd px_limit = record {
  px_limit = px_limit;
  taker_id = cmd.order_id;
  taker_user = cmd.user_id;
  ts = cmd.recv_ts;
  enable_stp = has_stp cmd.flags;
}

-- `if (best != EMPTY && best crosses the price)`: match, and otherwise nothing is filled.
unfoldable pub match_if_crossing : Side → OrderCommand → OrderBook → Option (Quantity × OrderBook)
match_if_crossing s cmd b =
    let best = best_of (opposite s) (levels_of (opposite s) b) in
    if not (best == empty_of (opposite s)) && not (past_limit (opposite s) best cmd.price_ticks)
    then match_against_side (opposite s) (incoming cmd cmd.price_ticks) cmd.qty b
    else some (0ℤ, b)

-- The order that rests, at its node.
abbrev pub resting : OrderCommand → Quantity → ℕ → Order
resting cmd remaining node = record {
  addr = node;
  id = cmd.order_id;
  user = cmd.user_id;
  qty = remaining;
  ts = cmd.recv_ts;
  flags = cmd.flags;
}

-- "GTC: rest in book"
unfoldable pub rest_in_book : Side → OrderCommand → Quantity → OrderBook → Option OrderBook
rest_in_book s cmd remaining b = do
  level ← get_level (levels_of s b) cmd.price_ticks
  (node, order_pool) ← SlabPool.alloc b.order_pool
  levels ← put_level (levels_of s b) cmd.price_ticks (enqueue level (resting cmd remaining node))
  let marked =
      if improves s cmd.price_ticks (best_of s levels)
      then set_best s levels cmd.price_ticks
      else levels
  id_index ←
      FlatMap.insert b.id_index cmd.order_id
        (record { side = s; price = cmd.price_ticks; node = node })
  some (with_levels s marked (record b { order_pool = order_pool; id_index = id_index }))

abbrev pub is_fok : TimeInForce → Bool
is_fok fok = true
is_fok gtc = false
is_fok ioc = false
is_fok gtd = false

abbrev pub rests : TimeInForce → Bool
rests gtc = true
rests gtd = true
rests ioc = false
rests fok = false

module _ (now_ns : ℕ → Timestamp) where
  -- `emit_book_update(); return result;`
  abbrev pub reply {ℓ} : {A : Type ℓ} → A → OrderBook → Option (A × OrderBook)
  reply r b = do b' ← emit_book_update now_ns b; some (r, b')

  -- What follows the match: the time in force decides what becomes of the rest.
  unfoldable pub settle :
      Side → OrderCommand → Quantity → OrderBook → Option (ExecResult × OrderBook)
  settle s cmd filled b =
      let remaining = cmd.qty -ℤ filled in
      if ltb_ℤ 0ℤ remaining
      then if rests cmd.tif
        then (do b' ← rest_in_book s cmd remaining b; reply (exec_result filled remaining) b')
        else reply (exec_result filled 0ℤ) b
      else reply (exec_result filled remaining) b

  unfoldable pub submit_limit_side :
      Side → OrderCommand → OrderBook → Option (ExecResult × OrderBook)
  submit_limit_side s cmd b =
      if is_fok cmd.tif && not (check_fok_liquidity (opposite s) cmd.qty cmd.price_ticks b)
      then reply (exec_result 0ℤ 0ℤ) b
      else (do (filled, b') ← match_if_crossing s cmd b; settle s cmd filled b')

  unfoldable pub submit_limit : OrderCommand → OrderBook → Option (ExecResult × OrderBook)
  submit_limit cmd b = submit_limit_side cmd.side cmd b

  unfoldable pub submit_market : OrderCommand → OrderBook → Option (ExecResult × OrderBook)
  submit_market cmd b = do
    let s = opposite cmd.side
    (filled, b') ← match_against_side s (incoming cmd (empty_of s)) cmd.qty b
    reply (exec_result filled (cmd.qty -ℤ filled)) b'
