-- ===== src/Qpack/Integer.antt =====
-- src/qpack/integer.rs: integers with an N-bit prefix and the 62-bit ceiling (RFC 9204, 4.1.1).
-- The loop of `parse` runs over the bytes behind the first. The two loops of the writer are the
-- HPACK ones, letter for letter, and `rounds` and `octets` stand for both.
pub mod Same
pub mod RoundTrip
use net_wire_rs.Common.{ℕ, zero, suc, ◌+◌, ◌-◌, ◌*◌, ◌%◌, ◌^◌, ◌<◌, bit_and, bit_or}
use net_wire_rs.Common.{List, [], ◌∷◌, ◌++◌, Option, Bool, ltb, leb, ◌==◌, ◌&&◌}
use net_wire_rs.Common.{if◌then◌else◌, length, take, drop}
use net_wire_rs.Common.Result.{Result, ok, err, ◌>>=◌, ok_or, checked_add, checked_mul}
use net_wire_rs.Common.Order.{lt_wf}
use net_wire_rs.Hpack.Integer.{rounds, octets, checked_add_shift}

-- QPACK_INTEGER_MAX
abbrev pub integer_max : ℕ
integer_max = 2 ^ 62 - 1

pub record QpackInteger : Type 0 where
  pub bytes : List ℕ
  pub prefix_bits : ℕ
  pub value : ℕ
  pub high_bits : ℕ

pub data QpackIntegerParseError : Type 0 where
  invalid_prefix_bits : ℕ → QpackIntegerParseError
  incomplete : ℕ → ℕ → QpackIntegerParseError
  overflow : QpackIntegerParseError
  value_too_large : ℕ → QpackIntegerParseError

unfoldable pub prefix_mask : ℕ → Result QpackIntegerParseError ℕ
prefix_mask prefix_bits =
    if leb 1 prefix_bits && leb prefix_bits 7
    then ok (2 ^ prefix_bits - 1)
    else if prefix_bits == 8
    then ok 255
    else err (invalid_prefix_bits prefix_bits)

-- One round's new value, or an overflow.
unfoldable pub add_octet : ℕ → ℕ → ℕ → Result QpackIntegerParseError ℕ
add_octet value shift octet = if leb 64 shift then err overflow else (do
  contribution ← ok_or (checked_mul (bit_and octet 0x7f) (2 ^ shift)) overflow
  ok_or (checked_add value contribution) overflow)

-- The ceiling that a finished number has to meet.
unfoldable pub finish : ℕ → ℕ → Result QpackIntegerParseError (ℕ × ℕ)
finish value index =
    if ltb integer_max value then err (value_too_large value) else ok (value, index)

-- The value and the index behind the last octet. `required` is computed before `get` answers.
unfoldable pub parse_loop : ℕ → ℕ → ℕ → ℕ → List ℕ → Result QpackIntegerParseError (ℕ × ℕ)
unfolding add_octet finish
parse_loop value shift index available [] = do
  required ← ok_or (checked_add index 1) overflow
  err (incomplete required available)
parse_loop value shift index available (octet ∷ rest) = do
  required ← ok_or (checked_add index 1) overflow
  value' ← add_octet value shift octet
  let next = λ (s : ℕ). parse_loop value' s required available rest
  if bit_and octet 0x80 == 0
      then finish value' required
      else (do shift' ← ok_or (checked_add_shift shift 7) overflow; next shift')

unfoldable pub parse_masked : ℕ → ℕ → List ℕ → Result QpackIntegerParseError QpackInteger
unfolding parse_loop
parse_masked prefix_bits mask [] = err (incomplete 1 0)
parse_masked prefix_bits mask (first ∷ rest) =
    let prefix_value = bit_and first mask in
    let high_bits = bit_and first (255 - mask) in
    if ltb prefix_value mask
    then ok (record {
      bytes = first ∷ [];
      prefix_bits = prefix_bits;
      value = prefix_value;
      high_bits = high_bits;
    })
    else (do
      (value, index) ← parse_loop mask 0 1 (suc (length rest)) rest
      ok (record {
        bytes = take index (first ∷ rest);
        prefix_bits = prefix_bits;
        value = value;
        high_bits = high_bits;
      }))

-- QpackInteger::parse
unfoldable pub parse : List ℕ → ℕ → Result QpackIntegerParseError QpackInteger
unfolding prefix_mask parse_masked
parse bytes prefix_bits = do mask ← prefix_mask prefix_bits; parse_masked prefix_bits mask bytes

unfoldable pub encoded_len : ℕ → ℕ → ℕ
unfolding rounds lt_wf
encoded_len value mask =
    if ltb value mask then 1 else 2 + rounds (value - mask) (lt_wf.apply (value - mask))

-- The mask that the prevalidated functions take, 0 for a width that they are never given.
unfoldable pub canonical_mask : ℕ → ℕ
canonical_mask prefix_bits =
    if leb 1 prefix_bits && leb prefix_bits 7
    then 2 ^ prefix_bits - 1
    else if prefix_bits == 8
    then 255
    else 0

unfoldable pub canonical_encoded_len : ℕ → ℕ → ℕ
unfolding encoded_len canonical_mask
canonical_encoded_len value prefix_bits = encoded_len value (canonical_mask prefix_bits)

-- What `write_canonical_prevalidated` puts at the front of the destination.
unfoldable pub write_canonical_prevalidated : ℕ → ℕ → ℕ → List ℕ
unfolding octets lt_wf canonical_mask
write_canonical_prevalidated prefix_bits high_bits value =
    let mask = canonical_mask prefix_bits in
    if ltb value mask
    then bit_or high_bits (value % 256) ∷ []
    else bit_or high_bits mask ∷ octets (value - mask) (lt_wf.apply (value - mask))

unfoldable pub integer_from_prevalidated : List ℕ → ℕ → ℕ → ℕ → QpackInteger
integer_from_prevalidated bytes prefix_bits high_bits value = record {
  bytes = bytes;
  prefix_bits = prefix_bits;
  value = value;
  high_bits = high_bits;
}

pub record QpackIntegerBuilder : Type 0 where
  pub destination : List ℕ
  pub prefix_bits : ℕ
  pub high_bits : ℕ
  pub value : ℕ

pub data QpackIntegerBuildError : Type 0 where
  bad_prefix_bits : ℕ → QpackIntegerBuildError
  high_bits_overlap : ℕ → ℕ → QpackIntegerBuildError
  too_large : ℕ → QpackIntegerBuildError
  buffer_too_short : ℕ → ℕ → QpackIntegerBuildError

unfoldable pub build_masked :
    QpackIntegerBuilder → ℕ → List ℕ × Result QpackIntegerBuildError QpackInteger
unfolding encoded_len write_canonical_prevalidated integer_from_prevalidated
build_masked b mask =
    let required = encoded_len b.value mask in
    let written = write_canonical_prevalidated b.prefix_bits b.high_bits b.value in
    if bit_and b.high_bits mask == 0
    then (if ltb integer_max b.value
        then (b.destination, err (too_large b.value))
        else if ltb (length b.destination) required
        then (b.destination, err (buffer_too_short required (length b.destination)))
        else (
          written ++ drop required b.destination,
          ok (integer_from_prevalidated written b.prefix_bits b.high_bits b.value),
        ))
    else (b.destination, err (high_bits_overlap b.high_bits b.prefix_bits))

-- QpackIntegerBuilder::build
unfoldable pub build : QpackIntegerBuilder → List ℕ × Result QpackIntegerBuildError QpackInteger
unfolding prefix_mask build_masked
build b = elim (prefix_mask b.prefix_bits) [
  | ok mask ↦ build_masked b mask
  | err e ↦ (b.destination, err (bad_prefix_bits b.prefix_bits))
]
