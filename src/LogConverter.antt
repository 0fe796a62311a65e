-- ===== src/LogConverter.antt =====
-- tools/log_converter.cpp: the two logs of a run as one JSON text. A file is the list of its bytes,
-- or `none` where it does not open; how a record lies in memory is a parameter.
pub mod Reading
pub mod Rows
use hyperliquid_matching_eng.Base.{
  ℕ, zero, suc, ◌+◌, ◌-◌, List, [], ◌∷◌, ◌++◌, Option, none, some, ◌>>=◌, ◌==◌, ltb, if◌then◌else◌,
  length, get_elem?, take, drop,
}
use hyperliquid_matching_eng.Types.{Tick, tick, empty_bid, empty_ask}
use hyperliquid_matching_eng.Command.{TradeEvent, BookUpdate}
use hyperliquid_matching_eng.Json.{Bytes, codes, show_u64, show_i64, show_tick}

-- The size of a record in bytes, and the record that lies there.
pub record Layout (T : Type 0) : Type 0 where
  pub size : ℕ
  pub decode : Bytes → T

-- The loop of `file.read`, on fuel: it ends where fewer bytes than a record are left.
unfoldable pub read_records : {T : Type 0} → Layout T → ℕ → Bytes → Option (List T)
read_records l zero bytes = none
read_records l (suc fuel) bytes =
    let later = read_records l fuel (drop l.size bytes) in
    if ltb (length bytes) l.size
    then some []
    else (do items ← later; some (l.decode (take l.size bytes) ∷ items))

unfoldable pub read_file : {T : Type 0} → Layout T → Bytes → Option (List T)
unfolding read_records
read_file l bytes = read_records l (length bytes + 1) bytes

-- std::min
unfoldable pub capped : ℕ → ℕ → ℕ
capped size limit = if ltb limit size then limit else size

unfoldable pub trade_row : TradeEvent → Bytes
trade_row t =
    codes "    {\"ts\": "
    ++ show_u64 t.ts
    ++ codes ", \"id\": "
    ++ show_u64 t.maker_id
    ++ codes ", \"symbol_id\": "
    ++ show_u64 t.symbol_id
    ++ codes ", \"price\": "
    ++ show_tick t.price_ticks
    ++ codes ", \"qty\": "
    ++ show_i64 t.qty
    ++ codes "}"

unfoldable pub update_row : BookUpdate → Bytes
update_row u =
    codes "    {\"ts\": "
    ++ show_u64 u.ts
    ++ codes ", \"symbol_id\": "
    ++ show_u64 u.symbol_id
    ++ codes ", \"best_bid\": "
    ++ show_tick (if u.best_bid == empty_bid then tick 0 else u.best_bid)
    ++ codes ", \"best_ask\": "
    ++ show_tick (if u.best_ask == empty_ask then tick 0 else u.best_ask)
    ++ codes ", \"bid_qty\": "
    ++ show_i64 u.bid_qty
    ++ codes ", \"ask_qty\": "
    ++ show_i64 u.ask_qty
    ++ codes "}"

-- The loop from index `i` for the `left` rows up to `n`. Inside it `n` is not 0, so `n - 1` does
-- not wrap; `none` is an index out of range.
unfoldable pub write_rows : {T : Type 0} → (T → Bytes) → List T → ℕ → ℕ → ℕ → Option Bytes
write_rows row items n i zero = some []
write_rows row items n i (suc left) =
    let later = write_rows row items n (suc i) left in
    do
      t ← get_elem? items i
      rest ← later
      some (row t ++ (if ltb i (n - 1) then codes "," else []) ++ codes "\n" ++ rest)

abbrev pub trade_limit : ℕ
trade_limit = 5000

abbrev pub book_limit : ℕ
book_limit = 5000

-- What is written for the records that were read.
unfoldable pub write_data : List TradeEvent → List BookUpdate → Option Bytes
unfolding write_rows capped trade_row update_row
write_data trades updates =
    let n = capped (length trades) trade_limit in
    let k = capped (length updates) book_limit in
    do
      trade_rows ← write_rows trade_row trades n 0 n
      update_rows ← write_rows update_row updates k 0 k
      some (
          codes "{\n  \"trades\": [\n"
          ++ trade_rows
          ++ codes "  ],\n  \"book_updates\": [\n"
          ++ update_rows
          ++ codes "  ]\n}\n")

-- The exit code, and the text that is written, if any.
pub record Converted : Type 0 where
  pub exit_code : ℕ
  pub data_json : Option Bytes

abbrev pub failed : Converted
failed = record { exit_code = 1; data_json = none }

-- `main` with a directory of results.
unfoldable pub convert :
    Layout TradeEvent → Layout BookUpdate → Option Bytes → Option Bytes → Option Converted
unfolding read_file write_data
convert lt lb none books_file = some failed
convert lt lb (some trades_bin) none = do trades ← read_file lt trades_bin; some failed
convert lt lb (some trades_bin) (some books_bin) = do
  trades ← read_file lt trades_bin
  updates ← read_file lb books_bin
  out ← write_data trades updates
  some (record { exit_code = 0; data_json = some out })
