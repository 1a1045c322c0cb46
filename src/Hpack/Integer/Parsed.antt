-- ===== src/Hpack/Integer/Parsed.antt =====
-- The reader of src/http2/hpack/integer.rs on what the writer puts out, and on any input.
use net_wire_rs.Common.{ℕ, zero, suc, ◌+◌, ◌*◌, ◌/◌, ◌%◌, ◌^◌, ◌<◌, ◌≤◌, arith}
use net_wire_rs.Common.{List, [], ◌∷◌, ◌++◌, ltb, length, ◌≡◌, ap, ◌∙◌, ◌⊎◌}
use net_wire_rs.Common.Bits.{and_seven_bits, and_top_bit}
use net_wire_rs.Common.Result.{ok, err, Result-cases, word}
use net_wire_rs.Hpack.Integer.{HpackIntegerParseError, overflow, incomplete, add_octet, parse_loop}
use net_wire_rs.Hpack.Integer.Written.{groups}
use net_wire_rs.Common.{Bool-cases, ltb→lt, ltb→le, inl, inr}
use mathlib.Core.Path.{ap₂}
use native.Mathlib.Decide.{dec_lt}
use native.Mathlib.Nat.{div-add-mod, pow-le-pow_right, mul-le-mul_right}
use native.Mathlib.Numerals.{towards_suc}

-- A round adds the octet's seven bits at the shift, if the sum is a u64.
add_octet-ok :
    (value shift octet : ℕ)
    → octet < 256
    → shift < 64
    → value + octet % 128 * 2 ^ shift < word
    → add_octet value shift octet ≡ ok (value + octet % 128 * 2 ^ shift)
unfolding add_octet
add_octet-ok value shift octet ho hs h = rw (and_seven_bits octet ho) (ground arith)

last_octet :
    (w value shift index available : ℕ) (rest : List ℕ)
    → w < 128
    → shift < 64
    → value + w * 2 ^ shift < word
    → index + 1 < word
    → parse_loop value shift index available (w ∷ rest) ≡ ok (value + w * 2 ^ shift, index + 1)
unfolding parse_loop
last_octet w value shift index available rest hw hs h hi =
    let e : w % 128 ≡ w = omega arith in
    let g : add_octet value shift w ≡ ok (value + w * 2 ^ shift) =
      rw e at (add_octet-ok value shift w (omega arith) hs (rw e h)) in
    ground (arith, g, and_top_bit w)

inner_octet_read :
    (g value shift index available : ℕ) (rest : List ℕ)
    → g < 128
    → shift < 57
    → value + g * 2 ^ shift < word
    → index + 1 < word
    → parse_loop value shift index available ((g + 128) ∷ rest)
      ≡ parse_loop (value + g * 2 ^ shift) (shift + 7) (index + 1) available rest
unfolding parse_loop
inner_octet_read g value shift index available rest hg hs h hi =
    let e : (g + 128) % 128 ≡ g = omega arith in
    let q : add_octet value shift (g + 128) ≡ ok (value + g * 2 ^ shift) =
      rw e at (add_octet-ok value shift (g + 128) (omega arith) (omega arith) (rw e h)) in
    ground (arith, q, and_top_bit (g + 128))

-- A number of more than seven bits that fits a u64 at a shift leaves room for a further octet.
shift_room : (r shift : ℕ) → 128 ≤ r → r * 2 ^ shift < word → shift < 57
shift_room r shift hr fits = elim (dec_lt shift 57) [
  | yes h ↦ h
  | no h ↦
      let far : 57 ≤ shift = omega arith in
      let big : 2 ^ 57 ≤ 2 ^ shift = pow-le-pow_right (omega arith) far in
      let more : 128 * 2 ^ shift ≤ r * 2 ^ shift = mul-le-mul_right (2 ^ shift) hr in
      absurd (omega arith)
]

shift_seven : (s : ℕ) → 2 ^ (s + 7) ≡ 128 * 2 ^ s
shift_seven s = simp towards_suc (omega arith)

split_group : (r s : ℕ) → r * 2 ^ s ≡ r % 128 * 2 ^ s + r / 128 * 2 ^ (s + 7)
split_group r s = omega (
  arith,
  ap (λ (t : ℕ). t * 2 ^ s) (div-add-mod r 128),
  ap (λ (t : ℕ). r / 128 * t) (shift_seven s),
)

-- The reader's loop on the groups of a number: it adds the number at the shift, and stops behind
-- the last group, whatever follows.
pub parse_loop-groups :
    (k r value shift index available : ℕ) (rest : List ℕ)
    → r < 128 ^ suc k
    → shift < 64
    → value + r * 2 ^ shift < word
    → index + suc k < word
    → parse_loop value shift index available (groups k r ++ rest)
      ≡ ok (value + r * 2 ^ shift, index + length (groups k r))
unfolding groups
parse_loop-groups zero r value shift index available rest hr hs h hi =
    last_octet r value shift index available rest hr hs h hi
parse_loop-groups (suc k) r value shift index available rest hr hs h hi =
    elim (Bool-cases (ltb r 128)) [
      | inl small ↦
          rw small
            (last_octet r value shift index available rest (ltb→lt r 128 small) hs h (omega arith))
      | inr large ↦
          let big : 128 ≤ r = ltb→le r 128 large in
          let room : shift < 57 = shift_room r shift big (omega arith) in
          let split = split_group r shift in
          let value' = value + r % 128 * 2 ^ shift in
          rw large (
            inner_octet_read (r % 128) value shift index available (groups k (r / 128) ++ rest)
              (omega arith) room (omega arith) (omega arith)
            ∙ parse_loop-groups k (r / 128) value' (shift + 7) (index + 1) available rest
                (omega arith) (omega arith) (omega arith) (omega arith)
            ∙ ap ok (ap₂ (λ (a b : ℕ). (a, b)) (omega arith) (omega arith)))
    ]

add_octet-lt :
    (value shift octet v : ℕ) → add_octet value shift octet ≡ ok v → (v < word) × (shift < 64)
unfolding add_octet
add_octet-lt value shift octet v e = ground arith

add_octet-errors :
    (value shift octet : ℕ) (x : HpackIntegerParseError)
    → add_octet value shift octet ≡ err x
    → x ≡ overflow
unfolding add_octet
add_octet-errors value shift octet x e = ground arith

-- After `j` octets the shift is 7 * j; a success returns a u64 after at most ten octets.
pub parse_loop_bounds :
    (rest : List ℕ) (value shift index available j v i : ℕ)
    → shift ≡ 7 * j
    → parse_loop value shift index available rest ≡ ok (v, i)
    → (v < word) × (index < i) × (i ≤ index + length rest) × (i + j ≤ index + 10)
unfolding parse_loop
parse_loop_bounds [] value shift index available j v i hs e = ground arith
parse_loop_bounds (octet ∷ rest) value shift index available j v i hs e =
    elim (Result-cases (add_octet value shift octet)) [
      | inl (u, q) ↦ ground (
        arith,
        add_octet-lt value shift octet u q,
        parse_loop_bounds rest u (shift + 7) (index + 1) available (j + 1) v i,
      )
      | inr (x, q) ↦ ground arith
    ]

-- An error of the continuation loop is an overflow, or asks for exactly one octet more than the
-- input has.
pub parse_loop_errors :
    (rest : List ℕ) (value shift index available : ℕ) (x : HpackIntegerParseError)
    → parse_loop value shift index available rest ≡ err x
    → (x ≡ overflow) ⊎ (x ≡ incomplete (index + length rest + 1) available)
unfolding parse_loop
parse_loop_errors [] value shift index available x e = ground arith
parse_loop_errors (octet ∷ rest) value shift index available x e =
    elim (Result-cases (add_octet value shift octet)) [
      | inl (u, q) ↦ ground (arith, parse_loop_errors rest u (shift + 7) (index + 1) available x)
      | inr (y, q) ↦ ground (arith, add_octet-errors value shift octet y q)
    ]
