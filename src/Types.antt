-- ===== src/Types.antt =====
-- include/hyperliquid/types.h: the scalar types, enumerations, flags, price band and sentinels.
--
-- A `Tick` is an `int64_t` price. It is only compared, stepped by one and used as an index, so it
-- is held in offset form: the number t + 2^63 stands for the price t. The offset keeps the order,
-- the step and the differences; INT64_MIN is 0 and INT64_MAX is 2^64 - 1.
-- A `Quantity` is an `int64_t` that is added and subtracted: a signed integer.
use Prim.Native.Nat.{bit_and}
use Prim.Native.String.{String}
use hyperliquid_matching_eng.Base.{ℕ, ◌-◌, ◌+◌, ◌^◌, Bool, not, ◌==◌}
use hyperliquid_matching_eng.Base.Int.{ℤ}

abbrev pub OrderId : Type 0
OrderId = ℕ

abbrev pub UserId : Type 0
UserId = ℕ

abbrev pub SymbolId : Type 0
SymbolId = ℕ

abbrev pub Tick : Type 0
Tick = ℕ

abbrev pub Quantity : Type 0
Quantity = ℤ

-- Nanoseconds, a `uint64_t`.
abbrev pub Timestamp : Type 0
Timestamp = ℕ

-- The offset form of a price that is not negative.
abbrev pub tick : ℕ → Tick
tick n = n + 2 ^ 63

pub data Side : Type 0 where
  bid ask : Side

pub data OrderType : Type 0 where
  limit market stop_limit stop_market : OrderType

pub data TimeInForce : Type 0 where
  gtc ioc fok gtd : TimeInForce

pub data CommandType : Type 0 where
  new_order cancel_order modify_order : CommandType

-- OrderFlags::STP, self-trade prevention.
abbrev pub stp_flag : ℕ
stp_flag = 4

-- (flags & STP) != 0
unfoldable pub has_stp : ℕ → Bool
has_stp flags = not (bit_and flags stp_flag == 0)

pub record PriceBand : Type 0 where
  pub min_tick : Tick
  pub max_tick : Tick
  pub tick_size : Tick

-- Sentinel::EMPTY_BID, the least `int64_t`.
abbrev pub empty_bid : Tick
empty_bid = 0

-- Sentinel::EMPTY_ASK, the greatest `int64_t`.
abbrev pub empty_ask : Tick
empty_ask = 2 ^ 64 - 1

-- Sentinel::INVALID_ORDER
abbrev pub invalid_order : OrderId
invalid_order = 0

-- The flags that the program defines and no code of the book reads, but for `is_iceberg`.
abbrev pub iceberg_flag : ℕ
iceberg_flag = 8

-- `to_string` of each enumeration.
abbrev pub side_to_string : Side → String
side_to_string bid = "Bid"
side_to_string ask = "Ask"

abbrev pub order_type_to_string : OrderType → String
order_type_to_string limit = "Limit"
order_type_to_string market = "Market"
order_type_to_string stop_limit = "StopLimit"
order_type_to_string stop_market = "StopMarket"

abbrev pub tif_to_string : TimeInForce → String
tif_to_string gtc = "GTC"
tif_to_string ioc = "IOC"
tif_to_string fok = "FOK"
tif_to_string gtd = "GTD"
