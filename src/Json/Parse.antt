-- ===== src/Json/Parse.antt =====
-- `parse_order_command` of include/hyperliquid/json_serializer.h.
use hyperliquid_matching_eng.Base.{
  ℕ, zero, suc, ◌+◌, ◌-◌, ◌*◌, ◌%◌, ◌^◌, ◌&&◌, ◌||◌, [], ◌∷◌, ◌++◌, Option, none, some, leb, ltb,
  ◌==◌, if◌then◌else◌, ◌>>=◌,
}
use hyperliquid_matching_eng.Base.Int.{ℤ, pos, negsuc}
use hyperliquid_matching_eng.Types.{CommandType, new_order, cancel_order, modify_order, Quantity}
use hyperliquid_matching_eng.Json.{Bytes, codes}

-- The fields that the parser sets. `static_cast` makes any byte a Side, an OrderType or a
-- TimeInForce, so these are bytes; a price is signed.
pub record WireCommand : Type 0 where
  pub type : CommandType
  pub recv_ts : ℕ
  pub order_id : ℕ
  pub symbol_id : ℕ
  pub user_id : ℕ
  pub price_ticks : ℤ
  pub qty : Quantity
  pub side : ℕ
  pub order_type : ℕ
  pub tif : ℕ
  pub flags : ℕ
  pub stop_price : ℤ
  pub display_qty : Quantity
  pub expiry_ts : ℕ

pub data ParseResult : Type 0 where
  failure : Bytes → ParseResult
  success : WireCommand → ParseResult

-- What stands behind `search`, if the text starts with it.
unfoldable pub strip_prefix : Bytes → Bytes → Option Bytes
strip_prefix [] json = some json
strip_prefix (s ∷ search) [] = none
strip_prefix (s ∷ search) (c ∷ json) =
    let rest = strip_prefix search json in if s == c then rest else none

-- `json.find(search)`, and on to its end.
unfoldable pub behind : Bytes → Bytes → Option Bytes
unfolding strip_prefix
behind search [] = strip_prefix search []
behind search (c ∷ json) =
    let later = behind search json in
    elim (strip_prefix search (c ∷ json)) [ none ↦ later | some rest ↦ some rest ]

skip_blanks : Bytes → Bytes
skip_blanks [] = []
skip_blanks (c ∷ s) = let rest = skip_blanks s in if c == b' ' || c == b'\t' then rest else c ∷ s

-- The digits at the start of the text, behind those read into `value`; `none` is an `int64_t` that
-- overflows, which is undefined.
unfoldable pub read_digits : Bytes → ℕ → Option ℕ
read_digits [] value = some value
read_digits (c ∷ s) value =
    let next = value * 10 + (c - b'0') in
    let more = read_digits s next in
    if leb b'0' c && leb c b'9' then (if ltb next (2 ^ 63) then more else none) else some value

abbrev pub negate : ℕ → ℤ
negate zero = pos 0
negate (suc n) = negsuc n

unfoldable pub read_int : Bytes → Option ℤ
unfolding read_digits
read_int [] = some (pos 0)
read_int (c ∷ s) =
    if c == b'-'
    then (do n ← read_digits s 0; some (negate n))
    else (do n ← read_digits (c ∷ s) 0; some (pos n))

unfoldable pub find_int : Bytes → Bytes → Option ℤ
unfolding behind skip_blanks read_int
find_int json key = elim (behind (b'"' ∷ key ++ codes "\":") json) [
  | none ↦ some (pos 0)
  | some rest ↦ read_int (skip_blanks rest)
]

-- The conversion of an integer to an unsigned type of `w` bits.
abbrev pub to_unsigned : ℕ → ℤ → ℕ
to_unsigned w (pos n) = n % 2 ^ w
to_unsigned w (negsuc n) = 2 ^ w - 1 - n % 2 ^ w

unfoldable pub find_uint : Bytes → Bytes → Option ℕ
unfolding find_int
find_uint json key = do n ← find_int json key; some (to_unsigned 64 n)

abbrev command_of : ℤ → Option CommandType
command_of (pos zero) = some new_order
command_of (pos (suc zero)) = some cancel_order
command_of (pos (suc (suc zero))) = some modify_order
command_of _ = none

-- `none` where a number overflows.
unfoldable pub parse_order_command : Bytes → Option ParseResult
unfolding find_int find_uint
parse_order_command json = do
  code ← find_int json (codes "command_type")
  elim (command_of code) [
    | none ↦ some (failure (codes "Invalid command_type"))
    | some cmd_type ↦ do
      order_id ← find_uint json (codes "order_id")
      symbol_id ← find_uint json (codes "symbol_id")
      user_id ← find_uint json (codes "user_id")
      price ← find_int json (codes "price")
      qty ← find_int json (codes "qty")
      side ← find_int json (codes "side")
      order_type ← find_int json (codes "order_type")
      tif ← find_int json (codes "tif")
      flags ← find_uint json (codes "flags")
      stop_price ← find_int json (codes "stop_price")
      display_qty ← find_int json (codes "display_qty")
      expiry_ts ← find_uint json (codes "expiry_ts")
      some (
          success (record {
            type = cmd_type;
            recv_ts = 0;
            order_id = order_id;
            symbol_id = symbol_id % 2 ^ 32;
            user_id = user_id % 2 ^ 32;
            price_ticks = price;
            qty = qty;
            side = to_unsigned 8 side;
            order_type = to_unsigned 8 order_type;
            tif = to_unsigned 8 tif;
            flags = flags % 2 ^ 32;
            stop_price = stop_price;
            display_qty = display_qty;
            expiry_ts = expiry_ts;
          }))
  ]
