-- ===== src/Bridge/Fields.antt =====
-- `get_json_string` of tools/engine_bridge.cpp on a field that is a string.
use hyperliquid_matching_eng.Base.{
  ℕ, ◌≡◌, ◌≢◌, refl, ap, ◌∙◌, arith, true, false, some, [], ◌∷◌, ◌++◌,
}
use hyperliquid_matching_eng.Json.{Bytes, codes}
use hyperliquid_matching_eng.Json.Parse.{strip_prefix, behind}
use hyperliquid_matching_eng.Bridge.{get_json_string, skip_to_value, until_quote, value_of}

-- No byte is a quote.
abbrev pub NoQuote : Bytes → Type 0
NoQuote [] = Unit {0}
NoQuote (c ∷ s) = (c ≢ b'"') × NoQuote s

strip_prefix-append : (p s : Bytes) → strip_prefix p (p ++ s) ≡ some s
unfolding strip_prefix
strip_prefix-append [] s = refl
strip_prefix-append (c ∷ p) s = ground (arith, strip_prefix-append p s)

-- Before the first quote nothing that starts with a quote is found.
behind-append :
    (pre p s : Bytes) → NoQuote pre → behind (b'"' ∷ p) (pre ++ (b'"' ∷ p) ++ s) ≡ some s
unfolding behind strip_prefix
behind-append [] p s h = rw (strip_prefix-append p s) refl
behind-append (c ∷ pre) p s h = ground (arith, behind-append pre p s h.1)

until_quote-append : (v s : Bytes) → NoQuote v → until_quote (v ++ b'"' ∷ s) ≡ v
unfolding until_quote
until_quote-append [] s h = refl
until_quote-append (c ∷ v) s h = ground (arith, until_quote-append v s h.1)

-- The value starts behind the first quote, if it starts with neither a quote nor a blank.
skip_to_value-quoted :
    (c : ℕ) (s : Bytes) → c ≢ b'"' → c ≢ b' ' → skip_to_value false (b'"' ∷ c ∷ s) ≡ (true, c ∷ s)
unfolding skip_to_value
skip_to_value-quoted c s h k = ground arith

get_json_string-found :
    (json key rest : Bytes)
    → behind (b'"' ∷ key ++ codes "\":") json ≡ some rest
    → get_json_string json key ≡ value_of (skip_to_value false rest)
unfolding get_json_string
get_json_string-found json key rest found = rw (get_json_string, found) refl

-- In a text where no quote stands before the key in quotes and its colon, the field of a string
-- that is not empty, has no quote in it and does not start with a blank is read as that string.
pub get_json_string-quoted :
    (pre key v rest : Bytes) (c : ℕ)
    → NoQuote pre
    → NoQuote (c ∷ v)
    → c ≢ b' '
    → get_json_string (pre ++ (b'"' ∷ key ++ codes "\":") ++ (b'"' ∷ c ∷ v ++ b'"' ∷ rest)) key
      ≡ c ∷ v
unfolding value_of
get_json_string-quoted pre key v rest c h k ne =
    let found = behind-append pre (key ++ codes "\":") (b'"' ∷ c ∷ v ++ b'"' ∷ rest) h in
    get_json_string-found _ key _ found
    ∙ ap value_of (skip_to_value-quoted c (v ++ b'"' ∷ rest) k.0 ne)
    ∙ until_quote-append (c ∷ v) rest k
