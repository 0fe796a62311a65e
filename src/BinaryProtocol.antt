-- ===== src/BinaryProtocol.antt =====
-- include/hyperliquid/binary_protocol.h: the packed messages as bytes, little-endian and without
-- padding. The floating-point prices and sizes are outside: `init` takes what their conversion to a
-- number of 64 bits gives. A message type is the byte that stands for it.
pub mod RoundTrip
pub mod Messages
use hyperliquid_matching_eng.Base.{
  ℕ, zero, suc, ◌+◌, ◌*◌, ◌/◌, ◌%◌, List, [], ◌∷◌, ◌++◌, Option, none, some, ltb, if◌then◌else◌,
  length, drop,
}

abbrev pub Bytes : Type 0
Bytes = List ℕ

pub data MsgType : Type 0 where
  add_order cancel_order modify_order reset stats_request : MsgType

abbrev pub msg_code : MsgType → ℕ
msg_code add_order = 1
msg_code cancel_order = 2
msg_code modify_order = 3
msg_code reset = 4
msg_code stats_request = 5

pub data RspType : Type 0 where
  ack trade stats error : RspType

abbrev pub rsp_code : RspType → ℕ
rsp_code ack = 1
rsp_code trade = 2
rsp_code stats = 3
rsp_code error = 4

pub data OrderSide : Type 0 where
  buy sell : OrderSide

abbrev pub side_code : OrderSide → ℕ
side_code buy = 0
side_code sell = 1

pub record Header : Type 0 where
  pub length : ℕ
  pub type : ℕ
  pub flags : ℕ

pub record AddOrder : Type 0 where
  pub header : Header
  pub order_id : ℕ
  pub price_raw : ℕ
  pub size_raw : ℕ
  pub side : ℕ
  pub timestamp_ns : ℕ

pub record CancelOrder : Type 0 where
  pub header : Header
  pub order_id : ℕ

pub record ModifyOrder : Type 0 where
  pub header : Header
  pub order_id : ℕ
  pub new_price_raw : ℕ
  pub new_size_raw : ℕ
  pub modify_flags : ℕ

pub record Reset : Type 0 where
  pub header : Header

pub record StatsRsp : Type 0 where
  pub header : Header
  pub orders_processed : ℕ
  pub trades_executed : ℕ
  pub resting_orders : ℕ
  pub avg_latency_ns : ℕ
  pub min_latency_ns : ℕ
  pub max_latency_ns : ℕ

pub record TradeRsp : Type 0 where
  pub header : Header
  pub trade_id : ℕ
  pub maker_order_id : ℕ
  pub taker_order_id : ℕ
  pub price_raw : ℕ
  pub size_raw : ℕ

-- sizeof of the packed structures.
abbrev pub header_size : ℕ
header_size = 4

abbrev pub add_order_size : ℕ
add_order_size = 33

abbrev pub cancel_order_size : ℕ
cancel_order_size = 12

unfoldable pub init_add : ℕ → ℕ → ℕ → OrderSide → AddOrder
init_add id price size s = record {
  header = record { length = add_order_size; type = msg_code add_order; flags = 0 };
  order_id = id;
  price_raw = price;
  size_raw = size;
  side = side_code s;
  timestamp_ns = 0;
}

unfoldable pub init_cancel : ℕ → CancelOrder
init_cancel id = record {
  header = record { length = cancel_order_size; type = msg_code cancel_order; flags = 0 };
  order_id = id;
}

unfoldable pub init_reset : Reset
init_reset = record { header = record { length = header_size; type = msg_code reset; flags = 0 } }

-- A number of `n` bytes, the lowest first, and back.
unfoldable pub le : ℕ → ℕ → Bytes
le zero x = []
le (suc n) x = x % 256 ∷ le n (x / 256)

unfoldable pub un_le : ℕ → Bytes → ℕ
un_le zero bs = 0
un_le (suc n) [] = 0
un_le (suc n) (b ∷ bs) = b + 256 * un_le n bs

unfoldable pub header_bytes : Header → Bytes → Bytes
header_bytes h rest = le 2 h.length ++ (le 1 h.type ++ (le 1 h.flags ++ rest))

-- Serializer::serialize
unfoldable pub serialize_cancel : CancelOrder → Bytes
unfolding header_bytes
serialize_cancel m = header_bytes m.header (le 8 m.order_id)

unfoldable pub serialize_add : AddOrder → Bytes
unfolding header_bytes
serialize_add m = header_bytes m.header (
    le 8 m.order_id
    ++ (le 8 m.price_raw ++ (le 8 m.size_raw ++ (le 1 m.side ++ le 4 m.timestamp_ns))))

unfoldable pub read_header : Bytes → Header
read_header bytes = record {
  length = un_le 2 bytes;
  type = un_le 1 (drop 2 bytes);
  flags = un_le 1 (drop 3 bytes);
}

unfoldable pub peek_type : Bytes → ℕ
peek_type bytes = if ltb (length bytes) header_size then 0 else un_le 1 (drop 2 bytes)

unfoldable pub peek_length : Bytes → ℕ
peek_length bytes = if ltb (length bytes) header_size then 0 else un_le 2 bytes

-- Parser::parse
unfoldable pub parse_cancel : Bytes → Option CancelOrder
parse_cancel bytes =
    if ltb (length bytes) cancel_order_size
    then none
    else some (record { header = read_header bytes; order_id = un_le 8 (drop 4 bytes) })

unfoldable pub parse_add : Bytes → Option AddOrder
parse_add bytes =
    if ltb (length bytes) add_order_size
    then none
    else some (record {
      header = read_header bytes;
      order_id = un_le 8 (drop 4 bytes);
      price_raw = un_le 8 (drop 12 bytes);
      size_raw = un_le 8 (drop 20 bytes);
      side = un_le 1 (drop 28 bytes);
      timestamp_ns = un_le 4 (drop 29 bytes);
    })
