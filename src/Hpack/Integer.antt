-- ===== src/Hpack/Integer.antt =====
-- src/http2/hpack/integer.rs: integers with an N-bit prefix (RFC 7541, section 5.1).
-- The loop of `parse` runs over the bytes behind the first; `index` and `available` are carried
-- for its errors. The writing loop recurs on `Acc`, since `remaining >>= 7` falls.
pub mod Written
pub mod Parsed
pub mod RoundTrip
pub mod Bounds
use net_wire_rs.Common.{ℕ, zero, suc, ◌+◌, ◌-◌, ◌*◌, ◌/◌, ◌%◌, ◌^◌, ◌<◌, bit_and, bit_or, arith}
use net_wire_rs.Common.{List, [], ◌∷◌, ◌++◌, Option, none, some, Bool, ltb, leb, ◌==◌, ◌&&◌}
use net_wire_rs.Common.{if◌then◌else◌, length, take, drop}
use net_wire_rs.Common.Result.{
  Result, ok, err, ◌>>=◌, ok_or, map_err, word, checked_add, checked_mul,
}
use net_wire_rs.Common.Order.{lt_wf}
use mathlib.Core.Logic.{dite}
use mathlib.Core.WellFounded.{Acc}
use native.Mathlib.Decide.{dec_lt}

pub record HpackInteger : Type 0 where
  pub bytes : List ℕ
  pub prefix_bits : ℕ
  pub value : ℕ
  pub high_bits : ℕ

pub data HpackIntegerParseError : Type 0 where
  invalid_prefix_bits : ℕ → HpackIntegerParseError
  incomplete : ℕ → ℕ → HpackIntegerParseError
  overflow : HpackIntegerParseError

unfoldable pub prefix_mask : ℕ → Result HpackIntegerParseError ℕ
prefix_mask prefix_bits =
    if leb 1 prefix_bits && leb prefix_bits 7
    then ok (2 ^ prefix_bits - 1)
    else if prefix_bits == 8
    then ok 255
    else err (invalid_prefix_bits prefix_bits)

-- `shift` is a u32.
abbrev pub checked_add_shift : ℕ → ℕ → Option ℕ
checked_add_shift a b = if ltb (a + b) (2 ^ 32) then some (a + b) else none

-- One round's new value, or an overflow.
unfoldable pub add_octet : ℕ → ℕ → ℕ → Result HpackIntegerParseError ℕ
add_octet value shift octet = if leb 64 shift then err overflow else (do
  contribution ← ok_or (checked_mul (bit_and octet 0x7f) (2 ^ shift)) overflow
  ok_or (checked_add value contribution) overflow)

-- The value and the index behind the last octet. `required` is computed before `get` answers.
unfoldable pub parse_loop : ℕ → ℕ → ℕ → ℕ → List ℕ → Result HpackIntegerParseError (ℕ × ℕ)
unfolding add_octet
parse_loop value shift index available [] = do
  required ← ok_or (checked_add index 1) overflow
  err (incomplete required available)
parse_loop value shift index available (octet ∷ rest) = do
  required ← ok_or (checked_add index 1) overflow
  value' ← add_octet value shift octet
  let next = λ (s : ℕ). parse_loop value' s required available rest
  if bit_and octet 0x80 == 0
      then ok (value', required)
      else (do shift' ← ok_or (checked_add_shift shift 7) overflow; next shift')

unfoldable pub parse_masked : ℕ → ℕ → List ℕ → Result HpackIntegerParseError HpackInteger
unfolding parse_loop
parse_masked prefix_bits mask [] = err (incomplete 1 0)
parse_masked prefix_bits mask (first ∷ rest) =
    let prefix_value = bit_and first mask in
    let high_bits = bit_and first (255 - mask) in
    if ltb prefix_value mask
    then ok (record {
      bytes = first ∷ [];
      prefix_bits = prefix_bits;
      value = prefix_value;
      high_bits = high_bits;
    })
    else (do
      (value, index) ← parse_loop mask 0 1 (suc (length rest)) rest
      ok (record {
        bytes = take index (first ∷ rest);
        prefix_bits = prefix_bits;
        value = value;
        high_bits = high_bits;
      }))

-- HpackInteger::parse
unfoldable pub parse : List ℕ → ℕ → Result HpackIntegerParseError HpackInteger
unfolding prefix_mask parse_masked
parse bytes prefix_bits = do mask ← prefix_mask prefix_bits; parse_masked prefix_bits mask bytes

pub shift_shrinks : (r : ℕ) → 127 < r → r / 2 ^ 7 < r
shift_shrinks r h = omega arith

-- `while remaining >= 0x80 { required += 1; remaining >>= 7 }`, counted from 0.
unfoldable pub rounds : (remaining : ℕ) → Acc ◌<◌ remaining → ℕ
rounds remaining (Acc.intro _ smaller) =
    dite (dec_lt 127 remaining)
      (λ more. suc (rounds (remaining / 2 ^ 7) (smaller _ (shift_shrinks remaining more)))) (λ _. 0)

unfoldable pub encoded_len : ℕ → ℕ → ℕ
unfolding rounds lt_wf dec_lt
encoded_len value mask =
    if ltb value mask then 1 else 2 + rounds (value - mask) (lt_wf.apply (value - mask))

-- The continuation octets that the loop of `write_canonical` writes.
unfoldable pub octets : (remaining : ℕ) → Acc ◌<◌ remaining → List ℕ
octets remaining (Acc.intro _ smaller) =
    dite (dec_lt 127 remaining)
      (λ more.
        bit_or (bit_and (remaining % 256) 0x7f) 0x80
        ∷ octets (remaining / 2 ^ 7) (smaller _ (shift_shrinks remaining more)))
      (λ _. remaining % 256 ∷ [])

-- What `write_canonical` puts at the front of the destination.
unfoldable pub write_canonical : ℕ → ℕ → ℕ → List ℕ
unfolding octets lt_wf dec_lt
write_canonical mask high_bits value =
    if ltb value mask
    then bit_or high_bits (value % 256) ∷ []
    else bit_or high_bits mask ∷ octets (value - mask) (lt_wf.apply (value - mask))

pub record HpackIntegerBuilder : Type 0 where
  pub destination : List ℕ
  pub prefix_bits : ℕ
  pub high_bits : ℕ
  pub value : ℕ

pub data HpackIntegerBuildError : Type 0 where
  bad_prefix_bits : ℕ → HpackIntegerBuildError
  high_bits_overlap : ℕ → ℕ → HpackIntegerBuildError
  buffer_too_short : ℕ → ℕ → HpackIntegerBuildError

unfoldable pub build_masked :
    HpackIntegerBuilder → ℕ → List ℕ × Result HpackIntegerBuildError HpackInteger
unfolding encoded_len write_canonical
build_masked b mask =
    let required = encoded_len b.value mask in
    let written = write_canonical mask b.high_bits b.value in
    if bit_and b.high_bits mask == 0
    then (if ltb (length b.destination) required
        then (b.destination, err (buffer_too_short required (length b.destination)))
        else (
          written ++ drop required b.destination,
          ok (record {
            bytes = written;
            prefix_bits = b.prefix_bits;
            value = b.value;
            high_bits = b.high_bits;
          }),
        ))
    else (b.destination, err (high_bits_overlap b.high_bits b.prefix_bits))

-- HpackIntegerBuilder::build
unfoldable pub build : HpackIntegerBuilder → List ℕ × Result HpackIntegerBuildError HpackInteger
unfolding prefix_mask build_masked
build b = elim (prefix_mask b.prefix_bits) [
  | ok mask ↦ build_masked b mask
  | err e ↦ (b.destination, err (bad_prefix_bits b.prefix_bits))
]
