-- ===== src/BinaryProtocol/Messages/Laws.antt =====
-- The parser of include/hyperliquid/binary_protocol.h reads every message back from its bytes, also
-- where other bytes follow.
use hyperliquid_matching_eng.Base.{
  ℕ, ◌^◌, ◌<◌, ◌≤◌, ◌≡◌, ap, ◌∙◌, arith, ◌++◌, some, if◌then◌else◌, ◌>>=◌, length, ltb,
}
use hyperliquid_matching_eng.BinaryProtocol.{
  Bytes, Header, AddOrder, CancelOrder, ModifyOrder, Reset, StatsRsp, TradeRsp, le, peek_length,
  peek_type, header_bytes, serialize_add, serialize_cancel, parse_add, parse_cancel,
}
use hyperliquid_matching_eng.BinaryProtocol.RoundTrip.{Fits, un_le-le, read_header-header_bytes}
use hyperliquid_matching_eng.BinaryProtocol.Messages.{
  Message, add_message, cancel_message, modify_message, reset_message, stats_message, trade_message,
  kind_of, header_of, serialize, parse, serialize_modify, serialize_reset, serialize_stats,
  serialize_trade, parse_modify, parse_reset, parse_stats, parse_trade,
}

-- The fields have room for their numbers.
abbrev pub IsPacked : Message → Type 0
IsPacked (add_message m) =
    Fits m.header
    × (m.order_id < 256 ^ 8)
    × (m.price_raw < 256 ^ 8)
    × (m.size_raw < 256 ^ 8)
    × (m.side < 256 ^ 1)
    × (m.timestamp_ns < 256 ^ 4)
IsPacked (cancel_message m) = Fits m.header × (m.order_id < 256 ^ 8)
IsPacked (modify_message m) =
    Fits m.header
    × (m.order_id < 256 ^ 8)
    × (m.new_price_raw < 256 ^ 8)
    × (m.new_size_raw < 256 ^ 8)
    × (m.modify_flags < 256 ^ 1)
IsPacked (reset_message m) = Fits m.header
IsPacked (stats_message m) =
    Fits m.header
    × (m.orders_processed < 256 ^ 8)
    × (m.trades_executed < 256 ^ 8)
    × (m.resting_orders < 256 ^ 8)
    × (m.avg_latency_ns < 256 ^ 8)
    × (m.min_latency_ns < 256 ^ 8)
    × (m.max_latency_ns < 256 ^ 8)
IsPacked (trade_message m) =
    Fits m.header
    × (m.trade_id < 256 ^ 8)
    × (m.maker_order_id < 256 ^ 8)
    × (m.taker_order_id < 256 ^ 8)
    × (m.price_raw < 256 ^ 8)
    × (m.size_raw < 256 ^ 8)

-- The guard of `parse` lets a message of the size through.
large_enough :
    {A : Type 0} (bytes : Bytes) (n : ℕ) (y x : A)
    → n ≤ length bytes
    → (if ltb (length bytes) n then y else x) ≡ x
large_enough bytes n y x le = ground arith

parse_add-serialize_add :
    (m : AddOrder) (rest : Bytes)
    → IsPacked (add_message m)
    → parse_add (serialize_add m ++ rest) ≡ some m
unfolding parse_add serialize_add header_bytes le
parse_add-serialize_add m rest (f, lt0, lt1, lt2, lt3, lt4) =
    let r4 = le 4 m.timestamp_ns ++ rest in
    let r3 = le 1 m.side ++ r4 in
    let r2 = le 8 m.size_raw ++ r3 in
    let r1 = le 8 m.price_raw ++ r2 in
    let r0 = le 8 m.order_id ++ r1 in
    let h = read_header-header_bytes m.header r0 f in
    let e0 = un_le-le 8 m.order_id r1 lt0 in
    let e1 = un_le-le 8 m.price_raw r2 lt1 in
    let e2 = un_le-le 8 m.size_raw r3 lt2 in
    let e3 = un_le-le 1 m.side r4 lt3 in
    let e4 = un_le-le 4 m.timestamp_ns rest lt4 in
    large_enough (serialize_add m ++ rest) 33 _ _ (omega arith) ∙ λ i. some (record {
      header = h i;
      order_id = e0 i;
      price_raw = e1 i;
      size_raw = e2 i;
      side = e3 i;
      timestamp_ns = e4 i;
    })

parse_cancel-serialize_cancel :
    (m : CancelOrder) (rest : Bytes)
    → IsPacked (cancel_message m)
    → parse_cancel (serialize_cancel m ++ rest) ≡ some m
unfolding parse_cancel serialize_cancel header_bytes le
parse_cancel-serialize_cancel m rest (f, lt0) =
    let r0 = le 8 m.order_id ++ rest in
    let h = read_header-header_bytes m.header r0 f in
    let e0 = un_le-le 8 m.order_id rest lt0 in
    large_enough (serialize_cancel m ++ rest) 12 _ _ (omega arith) ∙ λ i.
    some (record { header = h i; order_id = e0 i })

parse_modify-serialize_modify :
    (m : ModifyOrder) (rest : Bytes)
    → IsPacked (modify_message m)
    → parse_modify (serialize_modify m ++ rest) ≡ some m
unfolding parse_modify serialize_modify header_bytes le
parse_modify-serialize_modify m rest (f, lt0, lt1, lt2, lt3) =
    let r3 = le 1 m.modify_flags ++ rest in
    let r2 = le 8 m.new_size_raw ++ r3 in
    let r1 = le 8 m.new_price_raw ++ r2 in
    let r0 = le 8 m.order_id ++ r1 in
    let h = read_header-header_bytes m.header r0 f in
    let e0 = un_le-le 8 m.order_id r1 lt0 in
    let e1 = un_le-le 8 m.new_price_raw r2 lt1 in
    let e2 = un_le-le 8 m.new_size_raw r3 lt2 in
    let e3 = un_le-le 1 m.modify_flags rest lt3 in
    large_enough (serialize_modify m ++ rest) 29 _ _ (omega arith) ∙ λ i. some (record {
      header = h i;
      order_id = e0 i;
      new_price_raw = e1 i;
      new_size_raw = e2 i;
      modify_flags = e3 i;
    })

parse_reset-serialize_reset :
    (m : Reset) (rest : Bytes)
    → IsPacked (reset_message m)
    → parse_reset (serialize_reset m ++ rest) ≡ some m
unfolding parse_reset serialize_reset header_bytes le
parse_reset-serialize_reset m rest f =
    let h = read_header-header_bytes m.header rest f in
    large_enough (serialize_reset m ++ rest) 4 _ _ (omega arith) ∙ λ i.
    some (record { header = h i })

parse_stats-serialize_stats :
    (m : StatsRsp) (rest : Bytes)
    → IsPacked (stats_message m)
    → parse_stats (serialize_stats m ++ rest) ≡ some m
unfolding parse_stats serialize_stats header_bytes le
parse_stats-serialize_stats m rest (f, lt0, lt1, lt2, lt3, lt4, lt5) =
    let r5 = le 8 m.max_latency_ns ++ rest in
    let r4 = le 8 m.min_latency_ns ++ r5 in
    let r3 = le 8 m.avg_latency_ns ++ r4 in
    let r2 = le 8 m.resting_orders ++ r3 in
    let r1 = le 8 m.trades_executed ++ r2 in
    let r0 = le 8 m.orders_processed ++ r1 in
    let h = read_header-header_bytes m.header r0 f in
    let e0 = un_le-le 8 m.orders_processed r1 lt0 in
    let e1 = un_le-le 8 m.trades_executed r2 lt1 in
    let e2 = un_le-le 8 m.resting_orders r3 lt2 in
    let e3 = un_le-le 8 m.avg_latency_ns r4 lt3 in
    let e4 = un_le-le 8 m.min_latency_ns r5 lt4 in
    let e5 = un_le-le 8 m.max_latency_ns rest lt5 in
    large_enough (serialize_stats m ++ rest) 52 _ _ (omega arith) ∙ λ i. some (record {
      header = h i;
      orders_processed = e0 i;
      trades_executed = e1 i;
      resting_orders = e2 i;
      avg_latency_ns = e3 i;
      min_latency_ns = e4 i;
      max_latency_ns = e5 i;
    })

parse_trade-serialize_trade :
    (m : TradeRsp) (rest : Bytes)
    → IsPacked (trade_message m)
    → parse_trade (serialize_trade m ++ rest) ≡ some m
unfolding parse_trade serialize_trade header_bytes le
parse_trade-serialize_trade m rest (f, lt0, lt1, lt2, lt3, lt4) =
    let r4 = le 8 m.size_raw ++ rest in
    let r3 = le 8 m.price_raw ++ r4 in
    let r2 = le 8 m.taker_order_id ++ r3 in
    let r1 = le 8 m.maker_order_id ++ r2 in
    let r0 = le 8 m.trade_id ++ r1 in
    let h = read_header-header_bytes m.header r0 f in
    let e0 = un_le-le 8 m.trade_id r1 lt0 in
    let e1 = un_le-le 8 m.maker_order_id r2 lt1 in
    let e2 = un_le-le 8 m.taker_order_id r3 lt2 in
    let e3 = un_le-le 8 m.price_raw r4 lt3 in
    let e4 = un_le-le 8 m.size_raw rest lt4 in
    large_enough (serialize_trade m ++ rest) 44 _ _ (omega arith) ∙ λ i. some (record {
      header = h i;
      trade_id = e0 i;
      maker_order_id = e1 i;
      taker_order_id = e2 i;
      price_raw = e3 i;
      size_raw = e4 i;
    })

peek_length-header_bytes :
    (h : Header) (rest : Bytes) → Fits h → peek_length (header_bytes h rest) ≡ h.length
unfolding peek_length header_bytes le
peek_length-header_bytes h rest f =
    large_enough (header_bytes h rest) 4 _ _ (omega arith)
    ∙ un_le-le 2 h.length (le 1 h.type ++ (le 1 h.flags ++ rest)) f.length_fits

peek_type-header_bytes :
    (h : Header) (rest : Bytes) → Fits h → peek_type (header_bytes h rest) ≡ h.type
unfolding peek_type header_bytes le
peek_type-header_bytes h rest f =
    large_enough (header_bytes h rest) 4 _ _ (omega arith)
    ∙ un_le-le 1 h.type (le 1 h.flags ++ rest) f.type_fits

abbrev pub IsRead : Message → Bytes → Type 0
IsRead m bytes =
    (peek_length bytes ≡ (header_of m).length)
    × (peek_type bytes ≡ (header_of m).type)
    × (parse (kind_of m) bytes ≡ some m)

-- Of every message whose fields have room for its numbers, the parser reads back from the
-- serialized bytes, whatever bytes follow, the length and the type of the header and the message
-- itself.
pub parse-serialize : (m : Message) (rest : Bytes) → IsPacked m → IsRead m (serialize m ++ rest)
unfolding parse serialize header_bytes le serialize_add serialize_cancel serialize_modify
    serialize_reset serialize_stats serialize_trade
parse-serialize (add_message m) rest p = (
  peek_length-header_bytes m.header _ p.0,
  peek_type-header_bytes m.header _ p.0,
  ap (λ o. do x ← o; some (add_message x)) (parse_add-serialize_add m rest p),
)
parse-serialize (cancel_message m) rest p = (
  peek_length-header_bytes m.header _ p.0,
  peek_type-header_bytes m.header _ p.0,
  ap (λ o. do x ← o; some (cancel_message x)) (parse_cancel-serialize_cancel m rest p),
)
parse-serialize (modify_message m) rest p = (
  peek_length-header_bytes m.header _ p.0,
  peek_type-header_bytes m.header _ p.0,
  ap (λ o. do x ← o; some (modify_message x)) (parse_modify-serialize_modify m rest p),
)
parse-serialize (reset_message m) rest p = (
  peek_length-header_bytes m.header _ p,
  peek_type-header_bytes m.header _ p,
  ap (λ o. do x ← o; some (reset_message x)) (parse_reset-serialize_reset m rest p),
)
parse-serialize (stats_message m) rest p = (
  peek_length-header_bytes m.header _ p.0,
  peek_type-header_bytes m.header _ p.0,
  ap (λ o. do x ← o; some (stats_message x)) (parse_stats-serialize_stats m rest p),
)
parse-serialize (trade_message m) rest p = (
  peek_length-header_bytes m.header _ p.0,
  peek_type-header_bytes m.header _ p.0,
  ap (λ o. do x ← o; some (trade_message x)) (parse_trade-serialize_trade m rest p),
)
