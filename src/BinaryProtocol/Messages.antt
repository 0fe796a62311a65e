-- ===== src/BinaryProtocol/Messages.antt =====
-- include/hyperliquid/binary_protocol.h: `Serializer::serialize` and `Parser::parse` at every message.
pub mod Laws
use hyperliquid_matching_eng.Base.{
  ℕ, [], ◌++◌, Option, none, some, ltb, if◌then◌else◌, length, drop, ◌>>=◌,
}
use hyperliquid_matching_eng.BinaryProtocol.{
  Bytes, Header, AddOrder, CancelOrder, ModifyOrder, Reset, StatsRsp, TradeRsp, header_size, le,
  un_le, header_bytes, read_header, serialize_add, serialize_cancel, parse_add, parse_cancel,
}

-- sizeof of the packed structures.
abbrev pub modify_order_size : ℕ
modify_order_size = 29

abbrev pub stats_rsp_size : ℕ
stats_rsp_size = 52

abbrev pub trade_rsp_size : ℕ
trade_rsp_size = 44

unfoldable pub serialize_modify : ModifyOrder → Bytes
serialize_modify m =
    header_bytes m.header
      (le 8 m.order_id ++ (le 8 m.new_price_raw ++ (le 8 m.new_size_raw ++ le 1 m.modify_flags)))

unfoldable pub serialize_reset : Reset → Bytes
serialize_reset m = header_bytes m.header []

unfoldable pub serialize_stats : StatsRsp → Bytes
serialize_stats m = header_bytes m.header (
    le 8 m.orders_processed
    ++ (le 8 m.trades_executed
        ++ (le 8 m.resting_orders
            ++ (le 8 m.avg_latency_ns ++ (le 8 m.min_latency_ns ++ le 8 m.max_latency_ns)))))

unfoldable pub serialize_trade : TradeRsp → Bytes
serialize_trade m = header_bytes m.header (
    le 8 m.trade_id
    ++ (le 8 m.maker_order_id ++ (le 8 m.taker_order_id ++ (le 8 m.price_raw ++ le 8 m.size_raw))))

unfoldable pub parse_modify : Bytes → Option ModifyOrder
parse_modify bytes =
    if ltb (length bytes) modify_order_size
    then none
    else some (record {
      header = read_header bytes;
      order_id = un_le 8 (drop 4 bytes);
      new_price_raw = un_le 8 (drop 12 bytes);
      new_size_raw = un_le 8 (drop 20 bytes);
      modify_flags = un_le 1 (drop 28 bytes);
    })

unfoldable pub parse_reset : Bytes → Option Reset
parse_reset bytes =
    if ltb (length bytes) header_size then none else some (record { header = read_header bytes })

unfoldable pub parse_stats : Bytes → Option StatsRsp
parse_stats bytes =
    if ltb (length bytes) stats_rsp_size
    then none
    else some (record {
      header = read_header bytes;
      orders_processed = un_le 8 (drop 4 bytes);
      trades_executed = un_le 8 (drop 12 bytes);
      resting_orders = un_le 8 (drop 20 bytes);
      avg_latency_ns = un_le 8 (drop 28 bytes);
      min_latency_ns = un_le 8 (drop 36 bytes);
      max_latency_ns = un_le 8 (drop 44 bytes);
    })

unfoldable pub parse_trade : Bytes → Option TradeRsp
parse_trade bytes =
    if ltb (length bytes) trade_rsp_size
    then none
    else some (record {
      header = read_header bytes;
      trade_id = un_le 8 (drop 4 bytes);
      maker_order_id = un_le 8 (drop 12 bytes);
      taker_order_id = un_le 8 (drop 20 bytes);
      price_raw = un_le 8 (drop 28 bytes);
      size_raw = un_le 8 (drop 36 bytes);
    })

-- The types that the two templates are used at.
pub data Kind : Type 0 where
  add cancel modify reset stats trade : Kind

pub data Message : Type 0 where
  add_message : AddOrder → Message
  cancel_message : CancelOrder → Message
  modify_message : ModifyOrder → Message
  reset_message : Reset → Message
  stats_message : StatsRsp → Message
  trade_message : TradeRsp → Message

abbrev pub kind_of : Message → Kind
kind_of (add_message m) = add
kind_of (cancel_message m) = cancel
kind_of (modify_message m) = modify
kind_of (reset_message m) = reset
kind_of (stats_message m) = stats
kind_of (trade_message m) = trade

abbrev pub header_of : Message → Header
header_of (add_message m) = m.header
header_of (cancel_message m) = m.header
header_of (modify_message m) = m.header
header_of (reset_message m) = m.header
header_of (stats_message m) = m.header
header_of (trade_message m) = m.header

unfoldable pub serialize : Message → Bytes
serialize (add_message m) = serialize_add m
serialize (cancel_message m) = serialize_cancel m
serialize (modify_message m) = serialize_modify m
serialize (reset_message m) = serialize_reset m
serialize (stats_message m) = serialize_stats m
serialize (trade_message m) = serialize_trade m

unfoldable pub parse : Kind → Bytes → Option Message
parse add bytes = do m ← parse_add bytes; some (add_message m)
parse cancel bytes = do m ← parse_cancel bytes; some (cancel_message m)
parse modify bytes = do m ← parse_modify bytes; some (modify_message m)
parse reset bytes = do m ← parse_reset bytes; some (reset_message m)
parse stats bytes = do m ← parse_stats bytes; some (stats_message m)
parse trade bytes = do m ← parse_trade bytes; some (trade_message m)
