-- ===== src/Json/Decimal.antt =====
-- Numbers as include/hyperliquid/json_serializer.h writes them, and its parser on them.
use Prim.Native.Nat.pow
use mathlib.Core.List.{append_assoc, append-nil}
use hyperliquid_matching_eng.Base.{
  ℕ, zero, suc, ◌+◌, ◌-◌, ◌*◌, ◌/◌, ◌%◌, ◌^◌, ◌<◌, ◌≡◌, refl, false, arith, some, ◌>>=◌, [], ◌∷◌,
  ◌++◌, ◌∙◌, ap, leb, ◌≤◌, ◌&&◌, dec_lt, sym,
}
use hyperliquid_matching_eng.Base.Int.{ℤ, pos, negsuc, pos_part, neg_part}
use hyperliquid_matching_eng.Json.{Bytes, digits, show_u64, show_i64}
use hyperliquid_matching_eng.Json.Parse.{read_digits, read_int, negate}

-- No digit comes first.
abbrev pub Ends : Bytes → Type 0
Ends [] = Unit
Ends (c ∷ s) = (leb b'0' c && leb c b'9') ≡ false

digits-suc :
    (k n : ℕ) (rest : Bytes)
    → 10 ≤ n
    → digits (suc k) n ++ rest ≡ digits k (n / 10) ++ ((n % 10 + b'0') ∷ rest)
unfolding digits
digits-suc k n rest big =
    ground (arith, append_assoc (digits k (n / 10)) ((n % 10 + b'0') ∷ []) rest)

digits-short : (k n : ℕ) → n < 10 → digits (suc k) n ≡ (n + b'0') ∷ []
unfolding digits
digits-short k n small = ground arith

read_digits-∷ :
    (d v : ℕ) (rest : Bytes)
    → d < 10
    → v * 10 + d < 2 ^ 63
    → read_digits ((d + b'0') ∷ rest) v ≡ read_digits rest (v * 10 + d)
unfolding read_digits
read_digits-∷ d v rest small room =
    let same : v * 10 + (d + b'0' - b'0') ≡ v * 10 + d = omega arith in ground (arith, same)

read_digits-digits :
    (k n : ℕ) (rest : Bytes)
    → n < 10 ^ k
    → n < 2 ^ 63
    → read_digits (digits k n ++ rest) 0 ≡ read_digits rest n
read_digits-digits zero n rest lt room = unfold digits in ap (read_digits rest) (omega arith)
read_digits-digits (suc k) n rest lt room = elim (dec_lt n 10) [
  | yes small ↦
      ap (λ s. read_digits (s ++ rest) 0) (digits-short k n small)
      ∙ read_digits-∷ n 0 rest small (omega (arith, room))
      ∙ ap (read_digits rest) (omega arith)
  | no big ↦
      ap (λ s. read_digits s 0) (digits-suc k n rest (omega arith))
      ∙ read_digits-digits k (n / 10) ((n % 10 + b'0') ∷ rest) (omega (arith, pow.suc 10 k))
          (omega (arith, room))
      ∙ read_digits-∷ (n % 10) (n / 10) rest (omega arith) (omega (arith, room))
      ∙ ap (read_digits rest) (omega arith)
]

read_digits-Ends : (rest : Bytes) (n : ℕ) → Ends rest → read_digits rest n ≡ some n
unfolding read_digits
read_digits-Ends [] n e = refl
read_digits-Ends (c ∷ s) n e = rw e refl

-- A number that an `int64_t` has room for and that is written before other text is read back.
read_digits-show_u64 :
    (n : ℕ) (rest : Bytes) → n < 2 ^ 63 → Ends rest → read_digits (show_u64 n ++ rest) 0 ≡ some n
unfolding show_u64
read_digits-show_u64 n rest lt e =
    read_digits-digits 20 n rest (omega arith) lt ∙ read_digits-Ends rest n e

-- There is a first digit.
digits-head : (k n : ℕ) → (d : ℕ) × (t : Bytes) × (digits (suc k) n ≡ (d + b'0') ∷ t)
digits-head zero n = elim (dec_lt n 10) [
  | yes small ↦ (n, [], digits-short 0 n small)
  | no big ↦ (n % 10, [], unfold digits in ground arith)
]
digits-head (suc k) n = elim (dec_lt n 10) [
  | yes small ↦ (n, [], digits-short (suc k) n small)
  | no big ↦
      let (d, t, e) = digits-head k (n / 10) in
      (
        d,
        t ++ (n % 10 + b'0') ∷ [],
        sym (append-nil (digits (suc (suc k)) n))
            ∙ digits-suc (suc k) n [] (omega arith)
            ∙ ap (λ s. s ++ (n % 10 + b'0') ∷ []) e,
      )
]

read_int-digit :
    (d : ℕ) (s : Bytes)
    → read_int ((d + b'0') ∷ s) ≡ (do n ← read_digits ((d + b'0') ∷ s) 0; some (pos n))
unfolding read_int
read_int-digit d s = ground arith

-- What `show_i64` writes of a number between -2^63 and 2^63, both excluded, with text behind it
-- that does not start with a digit, is read by `read_int` as that number without overflow.
pub read_int-show_i64 :
    (q : ℤ) (rest : Bytes)
    → pos_part q < 2 ^ 63
    → neg_part q < 2 ^ 63
    → Ends rest
    → read_int (show_i64 q ++ rest) ≡ some q
unfolding show_i64
read_int-show_i64 (pos n) rest lt le e =
    let (d, t, head) = digits-head 19 n in
    let text : show_u64 n ++ rest ≡ (d + b'0') ∷ (t ++ rest) =
      unfold show_u64 in ap (λ s. s ++ rest) head in
    ap read_int text
    ∙ read_int-digit d (t ++ rest)
    ∙ ap (λ s. do m ← read_digits s 0; some (pos m)) (sym text)
    ∙ ap (λ o. do m ← o; some (pos m)) (read_digits-show_u64 n rest (omega arith) e)
read_int-show_i64 (negsuc n) rest lt le e =
    unfold read_int in
    ap (λ o. do m ← o; some (negate m)) (read_digits-show_u64 (suc n) rest (omega arith) e)
