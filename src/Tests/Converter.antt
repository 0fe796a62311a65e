-- ===== src/Tests/Converter.antt =====
-- A run of tools/log_converter.cpp on logs of bytes, little-endian and in two's complement, with the
-- four bytes of padding that the members behind the symbol's number are aligned by.
use hyperliquid_matching_eng.Base.{
  ℕ, zero, suc, ◌+◌, ◌-◌, ◌%◌, ◌/◌, ◌^◌, ◌<◌, ◌≤◌, ◌≡◌, refl, ap, ◌∙◌, arith, length, [], ◌∷◌, ◌++◌,
  some, drop, ltb, if◌then◌else◌,
}
use hyperliquid_matching_eng.Base.Int.{ℤ, pos, negsuc, pos_part, neg_part}
use hyperliquid_matching_eng.Types.{Tick, tick, empty_ask}
use hyperliquid_matching_eng.Command.{TradeEvent, BookUpdate}
use hyperliquid_matching_eng.Json.{Bytes}
use hyperliquid_matching_eng.BinaryProtocol.{le, un_le}
use hyperliquid_matching_eng.BinaryProtocol.RoundTrip.{un_le-le}
use hyperliquid_matching_eng.LogConverter.{Layout, convert}
use hyperliquid_matching_eng.LogConverter.Reading.{
  AllBytes, IsLayout, FitsTrade, FitsUpdate, log_bytes,
}
use hyperliquid_matching_eng.LogConverter.Rows.{document, convert-document}

-- The word of an `int64_t`, and the number that it stands for.
abbrev word : ℤ → ℕ
word (pos n) = n
word (negsuc n) = 2 ^ 64 - 1 - n

abbrev signed : ℕ → ℤ
signed w = if ltb w (2 ^ 63) then pos w else negsuc (2 ^ 64 - 1 - w)

signed-word : (z : ℤ) → pos_part z < 2 ^ 63 → neg_part z ≤ 2 ^ 63 → signed (word z) ≡ z
signed-word (pos n) lt le = ground arith
signed-word (negsuc n) lt le =
    let e : 2 ^ 64 - 1 - (2 ^ 64 - 1 - n) ≡ n = omega arith in ground (arith, e)

word-lt : (z : ℤ) → pos_part z < 2 ^ 63 → word z < 2 ^ 64
word-lt (pos n) lt = omega (arith, lt)
word-lt (negsuc n) lt = omega arith

-- A price is held in offset form.
abbrev flip : Tick → ℕ
flip px = (px + 2 ^ 63) % 2 ^ 64

flip-flip : (px : Tick) → px < 2 ^ 64 → flip (flip px) ≡ px
flip-flip px lt = omega arith

le-AllBytes : (n x : ℕ) (rest : Bytes) → AllBytes rest → AllBytes (le n x ++ rest)
unfolding le
le-AllBytes zero x rest v = v
le-AllBytes (suc n) x rest v = (omega arith, le-AllBytes n (x / 256) rest v)

abbrev fill : TradeEvent
fill = record {
  ts = 5;
  taker_id = 7;
  maker_id = 3;
  symbol_id = 0;
  price_ticks = tick 100;
  qty = pos 4;
}

abbrev bid_side : BookUpdate
bid_side = record {
  ts = 5;
  symbol_id = 0;
  best_bid = tick 100;
  best_ask = empty_ask;
  bid_qty = pos 6;
  ask_qty = pos 0;
}

abbrev encode_trade : TradeEvent → Bytes
encode_trade t =
    le 8 t.ts
    ++ (le 8 t.taker_id
        ++ (le 8 t.maker_id
            ++ (le 4 t.symbol_id
                ++ (le 4 0 ++ (le 8 (flip t.price_ticks) ++ (le 8 (word t.qty) ++ []))))))

abbrev decode_trade : Bytes → TradeEvent
decode_trade bytes = record {
  ts = un_le 8 bytes;
  taker_id = un_le 8 (drop 8 bytes);
  maker_id = un_le 8 (drop 16 bytes);
  symbol_id = un_le 4 (drop 24 bytes);
  price_ticks = flip (un_le 8 (drop 32 bytes));
  qty = signed (un_le 8 (drop 40 bytes));
}

abbrev encode_update : BookUpdate → Bytes
encode_update u =
    le 8 u.ts
    ++ (le 4 u.symbol_id
        ++ (le 4 0
            ++ (le 8 (flip u.best_bid)
                ++ (le 8 (flip u.best_ask)
                    ++ (le 8 (word u.bid_qty) ++ (le 8 (word u.ask_qty) ++ []))))))

abbrev decode_update : Bytes → BookUpdate
decode_update bytes = record {
  ts = un_le 8 bytes;
  symbol_id = un_le 4 (drop 8 bytes);
  best_bid = flip (un_le 8 (drop 16 bytes));
  best_ask = flip (un_le 8 (drop 24 bytes));
  bid_qty = signed (un_le 8 (drop 32 bytes));
  ask_qty = signed (un_le 8 (drop 40 bytes));
}

abbrev trade_layout : Layout TradeEvent
trade_layout = record { size = 48; decode = decode_trade }

abbrev update_layout : Layout BookUpdate
update_layout = record { size = 48; decode = decode_update }

price_back : (px : Tick) (rest : Bytes) → px < 2 ^ 64 → flip (un_le 8 (le 8 (flip px) ++ rest)) ≡ px
price_back px rest lt = ap flip (un_le-le 8 (flip px) rest (omega arith)) ∙ flip-flip px lt

qty_back :
    (z : ℤ) (rest : Bytes)
    → pos_part z < 2 ^ 63
    → neg_part z ≤ 2 ^ 63
    → signed (un_le 8 (le 8 (word z) ++ rest)) ≡ z
qty_back z rest lt le =
    let w = word-lt z lt in
    ap signed (un_le-le 8 (word z) rest (omega (arith, w))) ∙ signed-word z lt le

trade_decoded : (t : TradeEvent) → FitsTrade t → decode_trade (encode_trade t) ≡ t
unfolding le
trade_decoded t (ts, taker, maker, symbol, price, more, less) =
    let r5 = le 8 (word t.qty) ++ [] in
    let r4 = le 8 (flip t.price_ticks) ++ r5 in
    let r3 = le 4 0 ++ r4 in
    let r2 = le 4 t.symbol_id ++ r3 in
    let r1 = le 8 t.maker_id ++ r2 in
    let r0 = le 8 t.taker_id ++ r1 in
    let e0 = un_le-le 8 t.ts r0 (omega arith) in
    let e1 = un_le-le 8 t.taker_id r1 (omega arith) in
    let e2 = un_le-le 8 t.maker_id r2 (omega arith) in
    let e3 = un_le-le 4 t.symbol_id r3 (omega arith) in
    let e4 = price_back t.price_ticks r5 price in
    let e5 = qty_back t.qty [] more less in
    λ i. record {
      ts = e0 i;
      taker_id = e1 i;
      maker_id = e2 i;
      symbol_id = e3 i;
      price_ticks = e4 i;
      qty = e5 i;
    }

update_decoded : (u : BookUpdate) → FitsUpdate u → decode_update (encode_update u) ≡ u
unfolding le
update_decoded u (ts, symbol, best, ask, more, less, more', less') =
    let r5 = le 8 (word u.ask_qty) ++ [] in
    let r4 = le 8 (word u.bid_qty) ++ r5 in
    let r3 = le 8 (flip u.best_ask) ++ r4 in
    let r2 = le 8 (flip u.best_bid) ++ r3 in
    let r1 = le 4 0 ++ r2 in
    let e0 = un_le-le 8 u.ts (le 4 u.symbol_id ++ r1) (omega arith) in
    let e1 = un_le-le 4 u.symbol_id r1 (omega arith) in
    let e2 = price_back u.best_bid r3 best in
    let e3 = price_back u.best_ask r4 ask in
    let e4 = qty_back u.bid_qty r5 more less in
    let e5 = qty_back u.ask_qty [] more' less' in
    λ i. record {
      ts = e0 i;
      symbol_id = e1 i;
      best_bid = e2 i;
      best_ask = e3 i;
      bid_qty = e4 i;
      ask_qty = e5 i;
    }

encode_trade-AllBytes : (t : TradeEvent) → AllBytes (encode_trade t)
encode_trade-AllBytes t = le-AllBytes 8 t.ts _ (
    le-AllBytes 8 t.taker_id _ (
      le-AllBytes 8 t.maker_id _ (
        le-AllBytes 4 t.symbol_id _ (
          le-AllBytes 4 0 _
            (le-AllBytes 8 (flip t.price_ticks) _ (le-AllBytes 8 (word t.qty) [] tt))))))

length-encode_trade : (t : TradeEvent) → length (encode_trade t) ≡ 48
unfolding le
length-encode_trade t = refl

trade_layout-IsLayout : IsLayout FitsTrade trade_layout encode_trade
trade_layout-IsLayout = record {
  is_positive = omega arith;
  is_sized = length-encode_trade;
  is_bytes = encode_trade-AllBytes;
  is_decoded = trade_decoded;
}

encode_update-AllBytes : (u : BookUpdate) → AllBytes (encode_update u)
encode_update-AllBytes u = le-AllBytes 8 u.ts _ (
    le-AllBytes 4 u.symbol_id _ (
      le-AllBytes 4 0 _ (
        le-AllBytes 8 (flip u.best_bid) _ (
          le-AllBytes 8 (flip u.best_ask) _
            (le-AllBytes 8 (word u.bid_qty) _ (le-AllBytes 8 (word u.ask_qty) [] tt))))))

length-encode_update : (u : BookUpdate) → length (encode_update u) ≡ 48
unfolding le
length-encode_update u = refl

update_layout-IsLayout : IsLayout FitsUpdate update_layout encode_update
update_layout-IsLayout = record {
  is_positive = omega arith;
  is_sized = length-encode_update;
  is_bytes = encode_update-AllBytes;
  is_decoded = update_decoded;
}

fill-FitsTrade : FitsTrade fill
fill-FitsTrade =
    (omega arith, omega arith, omega arith, omega arith, omega arith, omega arith, omega arith)

bid_side-FitsUpdate : FitsUpdate bid_side
bid_side-FitsUpdate = (
  omega arith,
  omega arith,
  omega arith,
  omega arith,
  omega arith,
  omega arith,
  omega arith,
  omega arith,
)

convert-document_example :
    convert trade_layout update_layout
      (some (log_bytes encode_trade (fill ∷ fill ∷ []) ++ (9 ∷ [])))
      (some (log_bytes encode_update (bid_side ∷ []) ++ []))
    ≡ some
        (record { exit_code = 0; data_json = some (document (fill ∷ fill ∷ []) (bid_side ∷ [])) })
convert-document_example =
    convert-document trade_layout update_layout encode_trade encode_update (fill ∷ fill ∷ [])
      (bid_side ∷ []) (9 ∷ []) [] trade_layout-IsLayout update_layout-IsLayout
      (fill-FitsTrade, (fill-FitsTrade, tt)) (bid_side-FitsUpdate, tt) (omega arith) (omega arith)
