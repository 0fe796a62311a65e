-- ===== src/LogConverter/Reading.antt =====
-- tools/log_converter.cpp: the records of a log are read back from its bytes.
use hyperliquid_matching_eng.Base.{
  ℕ, zero, suc, ◌^◌, ◌<◌, ◌≤◌, ◌≡◌, refl, sym, ap, ◌∙◌, subst, arith, List, [], ◌∷◌, ◌++◌, some,
  ◌>>=◌, length, take, drop, length-append,
}
use mathlib.Core.List.{append_assoc}
use hyperliquid_matching_eng.Base.Int.{pos_part, neg_part}
use hyperliquid_matching_eng.Command.{TradeEvent, BookUpdate}
use hyperliquid_matching_eng.Json.{Bytes}
use hyperliquid_matching_eng.LogConverter.{Layout, read_records, read_file}

abbrev pub AllBytes : Bytes → Type 0
AllBytes [] = Unit {0}
AllBytes (b ∷ bs) = (b < 256) × AllBytes bs

abbrev pub All : {T : Type 0} → (T → Type 0) → List T → Type 0
All P [] = Unit {0}
All P (t ∷ ts) = P t × All P ts

-- `encode` is how the writer of the log laid its records out, in bytes of eight bits. A record is
-- decoded where its members are numbers that their types have room for, which `P` says.
pub record IsLayout {T : Type 0} (P : T → Type 0) (l : Layout T) (encode : T → Bytes) : Type 0 where
  pub is_positive : 0 < l.size
  pub is_sized : (t : T) → length (encode t) ≡ l.size
  pub is_bytes : (t : T) → AllBytes (encode t)
  pub is_decoded : (t : T) → P t → l.decode (encode t) ≡ t

-- The room of the members of the two records.
abbrev pub FitsTrade : TradeEvent → Type 0
FitsTrade t =
    (t.ts < 2 ^ 64)
    × (t.taker_id < 2 ^ 64)
    × (t.maker_id < 2 ^ 64)
    × (t.symbol_id < 2 ^ 32)
    × (t.price_ticks < 2 ^ 64)
    × (pos_part t.qty < 2 ^ 63)
    × (neg_part t.qty ≤ 2 ^ 63)

abbrev pub FitsUpdate : BookUpdate → Type 0
FitsUpdate u =
    (u.ts < 2 ^ 64)
    × (u.symbol_id < 2 ^ 32)
    × (u.best_bid < 2 ^ 64)
    × (u.best_ask < 2 ^ 64)
    × (pos_part u.bid_qty < 2 ^ 63)
    × (neg_part u.bid_qty ≤ 2 ^ 63)
    × (pos_part u.ask_qty < 2 ^ 63)
    × (neg_part u.ask_qty ≤ 2 ^ 63)

-- A log of the records, one behind the other.
unfoldable pub log_bytes : {T : Type 0} → (T → Bytes) → List T → Bytes
log_bytes encode [] = []
log_bytes encode (t ∷ ts) = encode t ++ log_bytes encode ts

take-append : (xs ys : Bytes) (n : ℕ) → length xs ≡ n → take n (xs ++ ys) ≡ xs
take-append [] ys zero e = refl
take-append [] ys (suc n) e = absurd (omega (arith, e))
take-append (x ∷ xs) ys zero e = absurd (omega (arith, e))
take-append (x ∷ xs) ys (suc n) e = ap (λ zs. x ∷ zs) (take-append xs ys n (omega (arith, e)))

drop-append : (xs ys : Bytes) (n : ℕ) → length xs ≡ n → drop n (xs ++ ys) ≡ ys
drop-append [] ys zero e = refl
drop-append [] ys (suc n) e = absurd (omega (arith, e))
drop-append (x ∷ xs) ys zero e = absurd (omega (arith, e))
drop-append (x ∷ xs) ys (suc n) e = drop-append xs ys n (omega (arith, e))

module _ {T : Type 0} (P : T → Type 0) (l : Layout T) (encode : T → Bytes)
    (v : IsLayout P l encode) where
  -- A round that finds a whole record.
  read_records-∷ :
      (fuel : ℕ) (t : T) (rest : Bytes)
      → P t
      → read_records l (suc fuel) (encode t ++ rest)
        ≡ (do items ← read_records l fuel rest; some (t ∷ items))
  unfolding read_records
  read_records-∷ fuel t rest fits =
      rw
        (
          take-append (encode t) rest l.size (v.is_sized t),
          drop-append (encode t) rest l.size (v.is_sized t),
          v.is_decoded t fits,
        )
        (ground (arith, v.is_sized t, length-append (encode t) rest))

  pub read_records-log_bytes :
      (ts : List T) (tail : Bytes) (fuel : ℕ)
      → All P ts
      → length tail < l.size
      → length (log_bytes encode ts ++ tail) < fuel
      → read_records l fuel (log_bytes encode ts ++ tail) ≡ some ts
  unfolding log_bytes read_records
  read_records-log_bytes ts tail zero fits short lt = absurd (omega (arith, lt))
  read_records-log_bytes [] tail (suc fuel) fits short lt = ground arith
  read_records-log_bytes (t ∷ ts) tail (suc fuel) fits short lt =
      let e = append_assoc (encode t) (log_bytes encode ts) tail in
      let whole = length-append (encode t) (log_bytes encode ts ++ tail) in
      subst (λ bytes. read_records l (suc fuel) bytes ≡ some (t ∷ ts)) (sym e)
        (read_records-∷ fuel t (log_bytes encode ts ++ tail) fits.0
          ∙ ap (λ o. do items ← o; some (t ∷ items))
              (read_records-log_bytes ts tail fuel fits.1 short
                (omega (arith, lt, whole, ap length e, v.is_positive, v.is_sized t))))

  pub read_file-log_bytes :
      (ts : List T) (tail : Bytes)
      → All P ts
      → length tail < l.size
      → read_file l (log_bytes encode ts ++ tail) ≡ some ts
  unfolding read_file
  read_file-log_bytes ts tail fits short = read_records-log_bytes ts tail _ fits short (omega arith)
