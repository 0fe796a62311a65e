-- ===== src/LogConverter/Rows.antt =====
-- tools/log_converter.cpp: what its loops write, as rows with commas between them.
use hyperliquid_matching_eng.Base.{
  ℕ, zero, suc, ◌+◌, ◌-◌, ◌<◌, ◌≤◌, ◌≡◌, refl, sym, ap, ◌∙◌, arith, dec_lt, List, [], ◌∷◌, ◌++◌,
  some, ltb, if◌then◌else◌, length, take, drop, get_elem?,
}
use hyperliquid_matching_eng.Command.{TradeEvent, BookUpdate}
use hyperliquid_matching_eng.Json.{Bytes, codes}
use hyperliquid_matching_eng.LogConverter.{
  Layout, capped, trade_row, update_row, write_rows, write_data, convert, trade_limit, book_limit,
}
use hyperliquid_matching_eng.LogConverter.Reading.{
  IsLayout, All, FitsTrade, FitsUpdate, log_bytes, read_file-log_bytes,
}

-- A comma where a row follows.
abbrev pub separator : {T : Type 0} → List T → Bytes
separator [] = []
separator (t ∷ ts) = codes ","

-- The rows of a JSON array, each on its line.
unfoldable pub separated : {T : Type 0} → (T → Bytes) → List T → Bytes
separated row [] = []
separated row (t ∷ ts) = row t ++ separator ts ++ codes "\n" ++ separated row ts

-- The document with these trades and these updates.
unfoldable pub document : List TradeEvent → List BookUpdate → Bytes
unfolding separated trade_row update_row
document trades updates =
    codes "{\n  \"trades\": [\n"
    ++ separated trade_row trades
    ++ codes "  ],\n  \"book_updates\": [\n"
    ++ separated update_row updates
    ++ codes "  ]\n}\n"

module _ {T : Type 0} where
  drop-at :
      (ts : List T) (i : ℕ)
      → i < length ts
      → (t : T) × (get_elem? ts i ≡ some t) × (drop i ts ≡ t ∷ drop (suc i) ts)
  drop-at [] i lt = absurd (omega (arith, lt))
  drop-at (t ∷ ts) zero lt = (t, refl, refl)
  drop-at (t ∷ ts) (suc i) lt = drop-at ts i (omega (arith, lt))

  -- The test of the index is whether a row follows.
  comma_lem :
      (ts : List T) (n i left : ℕ)
      → n ≤ length ts
      → i + suc left ≡ n
      → (if ltb i (n - 1) then codes "," else []) ≡ separator (take left (drop (suc i) ts))
  comma_lem ts n i zero le e = ground arith
  comma_lem ts n i (suc left) le e =
      let (t, at, dropped) = drop-at ts (suc i) (omega (arith, le, e)) in rw dropped (ground arith)

  write_rows-separated :
      (row : T → Bytes) (ts : List T) (n i left : ℕ)
      → n ≤ length ts
      → i + left ≡ n
      → write_rows row ts n i left ≡ some (separated row (take left (drop i ts)))
  unfolding write_rows separated
  write_rows-separated row ts n i zero le e = refl
  write_rows-separated row ts n i (suc left) le e =
      let (t, at, dropped) = drop-at ts i (omega (arith, le, e)) in
      rw
        (
          at,
          dropped,
          comma_lem ts n i left le e,
          write_rows-separated row ts n (suc i) left le (omega (arith, e)),
        )
        refl

  take-all : (ts : List T) (n : ℕ) → length ts ≤ n → take n ts ≡ ts
  take-all [] zero le = refl
  take-all [] (suc n) le = refl
  take-all (t ∷ ts) zero le = absurd (omega (arith, le))
  take-all (t ∷ ts) (suc n) le = ap (λ us. t ∷ us) (take-all ts n (omega (arith, le)))

  take-capped : (ts : List T) (limit : ℕ) → take (capped (length ts) limit) ts ≡ take limit ts
  unfolding capped
  take-capped ts limit = elim (dec_lt limit (length ts)) [
    | yes lt ↦ ap (λ n. take n ts) (ground (arith, lt))
    | no ge ↦
        ap (λ n. take n ts) (ground (arith, ge))
        ∙ take-all ts (length ts) (omega arith)
        ∙ sym (take-all ts limit (omega (arith, ge)))
  ]

  -- The loop over at most `limit` of the records.
  write_rows_lem :
      (row : T → Bytes) (ts : List T) (limit : ℕ)
      → let n = capped (length ts) limit in
        write_rows row ts n 0 n ≡ some (separated row (take limit ts))
  unfolding capped
  write_rows_lem row ts limit =
      write_rows-separated row ts _ 0 _ (ground arith) (omega arith)
      ∙ ap (λ us. some (separated row us)) (take-capped ts limit)

write_data-document :
    (trades : List TradeEvent) (updates : List BookUpdate)
    → write_data trades updates
      ≡ some (document (take trade_limit trades) (take book_limit updates))
unfolding write_data document
write_data-document trades updates =
    rw (write_rows_lem trade_row trades trade_limit, write_rows_lem update_row updates book_limit)
      refl

-- Of the logs that hold trades and book updates whose members fit their types, one record behind
-- the other in a layout of bytes that its decoder undoes for such records, each log perhaps
-- ending in a piece of a record, the converter writes, with exit code 0, the document of the
-- first 5000 trades and the first 5000 updates, with a comma between two rows and none after the
-- last.
pub convert-document :
    (lt : Layout TradeEvent) (lb : Layout BookUpdate) (encode_trade : TradeEvent → Bytes)
    (encode_update : BookUpdate → Bytes) (trades : List TradeEvent) (updates : List BookUpdate)
    (torn torn' : Bytes)
    → IsLayout FitsTrade lt encode_trade
    → IsLayout FitsUpdate lb encode_update
    → All FitsTrade trades
    → All FitsUpdate updates
    → length torn < lt.size
    → length torn' < lb.size
    → convert lt lb
        (some (log_bytes encode_trade trades ++ torn))
        (some (log_bytes encode_update updates ++ torn'))
      ≡ some (record {
        exit_code = 0;
        data_json = some (document (take trade_limit trades) (take book_limit updates));
      })
unfolding convert
convert-document lt lb encode_trade encode_update trades updates torn torn' vt vb ft fb short
      short' =
    rw
      (
        read_file-log_bytes FitsTrade lt encode_trade vt trades torn ft short,
        read_file-log_bytes FitsUpdate lb encode_update vb updates torn' fb short',
        write_data-document trades updates,
      )
      refl
