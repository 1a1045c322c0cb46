-- ===== src/Qpack/Integer/Same.antt =====
-- `parse` of src/qpack/integer.rs beside `parse` of src/http2/hpack/integer.rs.
use net_wire_rs.Common.{ℕ, suc, ◌+◌, ◌≤◌, ◌<◌, arith}
use net_wire_rs.Common.{
  List, [], ◌∷◌, ltb, if◌then◌else◌, length, take, length-take, ◌≡◌, refl, ap, ◌∙◌,
}
use net_wire_rs.Common.{inl, inr}
use net_wire_rs.Common.Result.{Result, ok, err, ◌>>=◌, map_err, Result-cases}
use net_wire_rs.Hpack.Integer
use net_wire_rs.Hpack.Integer.Bounds.{prefix_mask-lt, parse_bounds}
use net_wire_rs.Hpack.Integer.{HpackInteger, HpackIntegerParseError}
use net_wire_rs.Qpack.Integer.{
  QpackInteger, QpackIntegerParseError, invalid_prefix_bits, incomplete, overflow, value_too_large,
  prefix_mask, add_octet, finish, parse_loop, parse_masked, parse, integer_max,
}

-- The same failure, in QPACK's words.
unfoldable pub same_error : HpackIntegerParseError → QpackIntegerParseError
same_error (HpackIntegerParseError.invalid_prefix_bits p) = invalid_prefix_bits p
same_error (HpackIntegerParseError.incomplete r a) = incomplete r a
same_error HpackIntegerParseError.overflow = overflow

unfoldable pub same_integer : HpackInteger → QpackInteger
same_integer v = record {
  bytes = v.bytes;
  prefix_bits = v.prefix_bits;
  value = v.value;
  high_bits = v.high_bits;
}

-- The ceiling on a view.
unfoldable pub at_most_max : HpackInteger → Result QpackIntegerParseError QpackInteger
unfolding same_integer
at_most_max v =
    if ltb integer_max v.value then err (value_too_large v.value) else ok (same_integer v)

add_octet_same :
    (value shift octet : ℕ)
    → add_octet value shift octet ≡ map_err same_error (Integer.add_octet value shift octet)
unfolding add_octet Integer.add_octet same_error
add_octet_same value shift octet = ground arith

continue_octet :
    (value shift octet u : ℕ)
    → Integer.add_octet value shift octet ≡ ok u
    → add_octet value shift octet ≡ ok u
continue_octet value shift octet u q = add_octet_same value shift octet ∙ rw q

parse_loop_same :
    (rest : List ℕ) (value shift index available : ℕ)
    → parse_loop value shift index available rest ≡ (
        map_err same_error (Integer.parse_loop value shift index available rest) >>= λ r.
        finish r.0 r.1)
unfolding parse_loop Integer.parse_loop same_error finish
parse_loop_same [] value shift index available = ground arith
parse_loop_same (octet ∷ rest) value shift index available =
    elim (Result-cases (Integer.add_octet value shift octet)) [
      | inl (u, q) ↦ ground (
        arith,
        continue_octet value shift octet u q,
        parse_loop_same rest u (shift + 7) (index + 1) available,
      )
      | inr (x, q) ↦ ground (arith, add_octet_same value shift octet)
    ]

parse_masked_same :
    (p mask : ℕ) (bytes : List ℕ)
    → mask < 256
    → parse_masked p mask bytes
      ≡ (map_err same_error (Integer.parse_masked p mask bytes) >>= at_most_max)
unfolding parse_masked Integer.parse_masked same_error at_most_max finish same_integer
parse_masked_same p mask [] h = refl
parse_masked_same p mask (first ∷ rest) h =
    elim (Result-cases (Integer.parse_loop mask 0 1 (suc (length rest)) rest)) [
      | inl ((u, i), q) ↦ ground (arith, parse_loop_same rest mask 0 1 (suc (length rest)))
      | inr (x, q) ↦ ground (arith, parse_loop_same rest mask 0 1 (suc (length rest)))
    ]

prefix_mask_same : (p : ℕ) → prefix_mask p ≡ map_err same_error (Integer.prefix_mask p)
unfolding prefix_mask Integer.prefix_mask same_error
prefix_mask_same p = ground arith

-- On any bytes and prefix width the QPACK integer parser returns what the HPACK parser returns,
-- except that a value above 2 ^ 62 - 1 is refused as too large.
pub parse-same :
    (bytes : List ℕ) (p : ℕ)
    → parse bytes p ≡ (map_err same_error (Integer.parse bytes p) >>= at_most_max)
unfolding parse Integer.parse same_error
parse-same bytes p = elim (Result-cases (Integer.prefix_mask p)) [
  | inl (mask, q) ↦
      let lt : mask < 256 = prefix_mask-lt p mask q in
      let q' : prefix_mask p ≡ ok mask = prefix_mask_same p ∙ rw q in
      rw (q, q') (parse_masked_same p mask bytes lt)
  | inr (x, q) ↦
      let q' : prefix_mask p ≡ err (same_error x) = prefix_mask_same p ∙ rw q in rw (q, q')
]

at_most_max-bytes :
    (v : HpackInteger) (w : QpackInteger)
    → at_most_max v ≡ ok w
    → (w.bytes ≡ v.bytes) × (w.value ≡ v.value) × (w.value ≤ integer_max)
unfolding at_most_max same_integer
at_most_max-bytes v w e = ground arith

-- A view is not empty and no longer than the input, and its value meets the ceiling.
pub parse-bytes :
    (bytes : List ℕ) (p : ℕ) (w : QpackInteger)
    → parse bytes p ≡ ok w
    → (1 ≤ length w.bytes) × (length w.bytes ≤ length bytes) × (w.value ≤ integer_max)
parse-bytes bytes p w e = elim (Result-cases (Integer.parse bytes p)) [
  | inl (v, q) ↦
      let (n, front, lo, hi, fits, u64) = parse_bounds bytes p v q in
      let kept : at_most_max v ≡ ok w = rw (parse-same bytes p, q) at e in
      let (same, same_value, ceiling) = at_most_max-bytes v w kept in
      let size : length w.bytes ≡ length (take n bytes) = ap length (same ∙ front) in
      omega (arith, length-take n bytes)
  | inr (x, q) ↦ let failed : err (same_error x) ≡ ok w = rw (parse-same bytes p, q) at e in cc
]
