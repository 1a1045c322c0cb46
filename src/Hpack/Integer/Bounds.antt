-- ===== src/Hpack/Integer/Bounds.antt =====
-- What `parse` of src/http2/hpack/integer.rs accepts of any input.
use net_wire_rs.Common.{ℕ, suc, ◌<◌, ◌≤◌, bit_and, arith}
use net_wire_rs.Common.{List, [], ◌∷◌, ltb, length, ◌≡◌}
use net_wire_rs.Common.{Bool-cases, inl, inr, take}
use net_wire_rs.Common.Result.{ok, Result-cases, word}
use net_wire_rs.Hpack.Integer.{HpackInteger, prefix_mask, parse, parse_masked, parse_loop}
use net_wire_rs.Hpack.Integer.Parsed.{parse_loop_bounds}
use net_wire_rs.Hpack.Integer.RoundTrip.{pow_range}

pub prefix_mask-lt : (p m : ℕ) → prefix_mask p ≡ ok m → m < 256
unfolding prefix_mask
prefix_mask-lt p m e = ground (arith, pow_range p)

parse_masked_bounds :
    (p mask : ℕ) (bytes : List ℕ) (v : HpackInteger)
    → mask < 256
    → parse_masked p mask bytes ≡ ok v
    → (n : ℕ) × (v.bytes ≡ take n bytes)
      × (1 ≤ n)
      × (n ≤ 11)
      × (n ≤ length bytes)
      × (v.value < word)
unfolding parse_masked
parse_masked_bounds p mask [] v hm e = cc
parse_masked_bounds p mask (first ∷ rest) v hm e =
    elim (Bool-cases (ltb (bit_and first mask) mask)) [
      | inl small ↦ (1, ground arith, omega arith, omega arith, omega arith, ground arith)
      | inr large ↦ elim (Result-cases (parse_loop mask 0 1 (suc (length rest)) rest)) [
        | inl ((u, i), q) ↦
            let b = parse_loop_bounds rest mask 0 1 (suc (length rest)) 0 u i (omega arith) q in
            (i, ground arith, omega arith, omega arith, omega arith, ground arith)
        | inr (x, q) ↦ ground arith
      ]
    ]

-- On any input, a successful HPACK integer parse returns a value below 2 ^ 64 and between one and
-- eleven bytes, which stand at the front of the input.
pub parse_bounds :
    (bytes : List ℕ) (p : ℕ) (v : HpackInteger)
    → parse bytes p ≡ ok v
    → (n : ℕ) × (v.bytes ≡ take n bytes)
      × (1 ≤ n)
      × (n ≤ 11)
      × (n ≤ length bytes)
      × (v.value < word)
unfolding parse
parse_bounds bytes p v e = elim (Result-cases (prefix_mask p)) [
  | inl (mask, q) ↦ parse_masked_bounds p mask bytes v (prefix_mask-lt p mask q) (rw q at e)
  | inr (x, q) ↦ ground arith
]
