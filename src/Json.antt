-- ===== src/Json.antt =====
-- include/hyperliquid/json_serializer.h: the events and the commands as JSON text. A text is the
-- list of its bytes.
pub mod Parse
pub mod Decimal
use Prim.Native.Char.{code}
use Prim.Native.String.{String}
use hyperliquid_matching_eng.Base.{
  Bool, true, false, ℕ, zero, suc, ◌+◌, ◌-◌, ◌/◌, ◌%◌, ◌^◌, List, [], ◌∷◌, ◌++◌, ltb, ◌==◌,
  if◌then◌else◌,
}
use hyperliquid_matching_eng.Base.Int.{ℤ, pos, negsuc}
use hyperliquid_matching_eng.Types.{
  Tick, Side, bid, ask, OrderType, limit, market, stop_limit, stop_market, TimeInForce, gtc, ioc,
  fok, gtd, CommandType, new_order, cancel_order, modify_order, Quantity, tick,
}
use hyperliquid_matching_eng.Command.{OrderCommand, TradeEvent, BookUpdate}

abbrev pub Bytes : Type 0
Bytes = List ℕ

-- The bytes of an ASCII literal.
abbrev pub codes : String → Bytes
codes String.[] = []
codes (String.◌∷◌ c s) = code c ∷ codes s

-- Two texts are equal: `==` of strings, and `strcmp`.
unfoldable pub same_text : Bytes → Bytes → Bool
same_text [] [] = true
same_text [] (d ∷ t) = false
same_text (c ∷ s) [] = false
same_text (c ∷ s) (d ∷ t) = let rest = same_text s t in if c == d then rest else false

escape_char : ℕ → Bytes
escape_char c =
    if c == b'"'
    then codes "\\\""
    else if c == b'\\'
    then codes "\\\\"
    else if c == 8
    then codes "\\b"
    else if c == 12
    then codes "\\f"
    else if c == b'\n'
    then codes "\\n"
    else if c == b'\r'
    then codes "\\r"
    else if c == b'\t'
    then codes "\\t"
    else c ∷ []

unfoldable pub escape : Bytes → Bytes
unfolding escape_char
escape [] = []
escape (c ∷ s) = escape_char c ++ escape s

-- The decimal digits of a number below 10 ^ fuel.
unfoldable pub digits : ℕ → ℕ → Bytes
digits zero n = []
digits (suc fuel) n =
    let front = digits fuel (n / 10) in
    if ltb n 10 then (n + b'0') ∷ [] else front ++ ((n % 10 + b'0') ∷ [])

-- `oss << n` for an unsigned number: one of 64 bits has at most twenty digits.
unfoldable pub show_u64 : ℕ → Bytes
unfolding digits
show_u64 n = digits 20 n

-- `oss << n` for a signed number.
unfoldable pub show_i64 : ℤ → Bytes
unfolding show_u64
show_i64 (pos n) = show_u64 n
show_i64 (negsuc n) = b'-' ∷ show_u64 (suc n)

-- `oss << px`: the price that the offset form stands for.
unfoldable pub show_tick : Tick → Bytes
unfolding show_u64
show_tick px = if ltb px (2 ^ 63) then b'-' ∷ show_u64 (2 ^ 63 - px) else show_u64 (px - 2 ^ 63)

abbrev pub side_code : Side → ℕ
side_code bid = 0
side_code ask = 1

abbrev pub order_type_code : OrderType → ℕ
order_type_code limit = 0
order_type_code market = 1
order_type_code stop_limit = 2
order_type_code stop_market = 3

abbrev pub tif_code : TimeInForce → ℕ
tif_code gtc = 0
tif_code ioc = 1
tif_code fok = 2
tif_code gtd = 3

abbrev pub command_code : CommandType → ℕ
command_code new_order = 0
command_code cancel_order = 1
command_code modify_order = 2

unfoldable pub trade_to_json : TradeEvent → Bytes
unfolding show_u64 show_i64 show_tick
trade_to_json trade =
    codes "{\"type\":\"trade\",\"ts\":"
    ++ show_u64 trade.ts
    ++ codes ",\"taker_id\":"
    ++ show_u64 trade.taker_id
    ++ codes ",\"maker_id\":"
    ++ show_u64 trade.maker_id
    ++ codes ",\"symbol_id\":"
    ++ show_u64 trade.symbol_id
    ++ codes ",\"price\":"
    ++ show_tick trade.price_ticks
    ++ codes ",\"qty\":"
    ++ show_i64 trade.qty
    ++ codes "}"

unfoldable pub update_to_json : BookUpdate → Bytes
unfolding show_u64 show_i64 show_tick
update_to_json update =
    codes "{\"type\":\"book_update\",\"ts\":"
    ++ show_u64 update.ts
    ++ codes ",\"symbol_id\":"
    ++ show_u64 update.symbol_id
    ++ codes ",\"best_bid\":"
    ++ show_tick update.best_bid
    ++ codes ",\"best_ask\":"
    ++ show_tick update.best_ask
    ++ codes ",\"bid_qty\":"
    ++ show_i64 update.bid_qty
    ++ codes ",\"ask_qty\":"
    ++ show_i64 update.ask_qty
    ++ codes "}"

-- The optional fields stand only where they are not zero.
unfoldable pub command_to_json : OrderCommand → Bytes
unfolding show_u64 show_i64 show_tick
command_to_json cmd =
    codes "{\"type\":\"order_command\",\"command_type\":"
    ++ show_u64 (command_code cmd.type)
    ++ codes ",\"order_id\":"
    ++ show_u64 cmd.order_id
    ++ codes ",\"symbol_id\":"
    ++ show_u64 cmd.symbol_id
    ++ codes ",\"user_id\":"
    ++ show_u64 cmd.user_id
    ++ codes ",\"price\":"
    ++ show_tick cmd.price_ticks
    ++ codes ",\"qty\":"
    ++ show_i64 cmd.qty
    ++ codes ",\"side\":"
    ++ show_u64 (side_code cmd.side)
    ++ codes ",\"order_type\":"
    ++ show_u64 (order_type_code cmd.order_type)
    ++ codes ",\"tif\":"
    ++ show_u64 (tif_code cmd.tif)
    ++ codes ",\"flags\":"
    ++ show_u64 cmd.flags
    ++ (if cmd.stop_price == tick 0
        then []
        else codes ",\"stop_price\":" ++ show_tick cmd.stop_price)
    ++ (elim cmd.display_qty [ pos zero ↦ [] | q ↦ codes ",\"display_qty\":" ++ show_i64 q ])
    ++ (if cmd.expiry_ts == 0 then [] else codes ",\"expiry_ts\":" ++ show_u64 cmd.expiry_ts)
    ++ codes "}"
