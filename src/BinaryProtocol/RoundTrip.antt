-- ===== src/BinaryProtocol/RoundTrip.antt =====
-- The numbers and the header of include/hyperliquid/binary_protocol.h, read back from their bytes.
use Prim.Native.Nat.pow
use hyperliquid_matching_eng.Base.{
  ℕ, zero, suc, ◌/◌, ◌^◌, ◌<◌, ◌≡◌, refl, arith, ◌++◌, length, ap, ◌∙◌,
}
use hyperliquid_matching_eng.BinaryProtocol.{Bytes, Header, le, un_le, header_bytes, read_header}

length-le : (n x : ℕ) → length (le n x) ≡ n
unfolding le
length-le zero x = refl
length-le (suc n) x = ap suc (length-le n (x / 256))

pub un_le-le : (n x : ℕ) (rest : Bytes) → x < 256 ^ n → un_le n (le n x ++ rest) ≡ x
unfolding le un_le
un_le-le zero x rest lt = omega arith
un_le-le (suc n) x rest lt =
    let e = un_le-le n (x / 256) rest (omega (arith, pow.suc 256 n)) in omega (arith, e)

-- The numbers that the fields have room for.
pub record Fits (h : Header) : Type 0 where
  pub length_fits : h.length < 256 ^ 2
  pub type_fits : h.type < 256 ^ 1
  pub flags_fits : h.flags < 256 ^ 1

pub read_header-header_bytes :
    (h : Header) (rest : Bytes) → Fits h → read_header (header_bytes h rest) ≡ h
unfolding read_header header_bytes le
read_header-header_bytes h rest f =
    let l = un_le-le 2 h.length (le 1 h.type ++ (le 1 h.flags ++ rest)) f.length_fits in
    let t = un_le-le 1 h.type (le 1 h.flags ++ rest) f.type_fits in
    let g = un_le-le 1 h.flags rest f.flags_fits in
    let rest_type = un_le 1 (le 1 h.type ++ (le 1 h.flags ++ rest)) in
    let rest_flags = un_le 1 (le 1 h.flags ++ rest) in
    ap (λ x. record { length = x; type = rest_type; flags = rest_flags }) l
    ∙ ap (λ x. record { length = h.length; type = x; flags = rest_flags }) t
    ∙ ap (λ x. record { length = h.length; type = h.type; flags = x }) g
