-- ===== src/Qpack/Integer/RoundTrip.antt =====
-- `parse` of src/qpack/integer.rs on what the writer of the same file puts out.
use net_wire_rs.Common.{ℕ, ◌-◌, ◌^◌, ◌≤◌, arith}
use net_wire_rs.Common.{List, ◌++◌, length, ◌≡◌, refl, ap, sym, ◌∙◌, drop}
use net_wire_rs.Common.{leb, Bool-cases, inl, inr, le→ltb, length-append, length-drop, drop-append}
use net_wire_rs.Common.Result.{ok}
use net_wire_rs.Hpack.Integer
use net_wire_rs.Hpack.Integer.RoundTrip.{
  IsLegal, wire, parse-wire, write_canonical-wire, encoded_len-length,
}
use net_wire_rs.Qpack.Integer.{
  QpackInteger, QpackIntegerBuilder, integer_max, prefix_mask, parse, encoded_len, canonical_mask,
  canonical_encoded_len, write_canonical_prevalidated, integer_from_prevalidated, build,
  build_masked,
}
use net_wire_rs.Qpack.Integer.Same.{parse-same, same_error, same_integer, at_most_max}

canonical_mask-eq : (p : ℕ) → 1 ≤ p → p ≤ 8 → canonical_mask p ≡ 2 ^ p - 1
unfolding canonical_mask
canonical_mask-eq p lo hi = elim (Bool-cases (leb p 7)) [
  | inl small ↦ ground arith
  | inr large ↦ let e : p ≡ 8 = ground arith in rw e refl
]

prefix_mask-eq : (p : ℕ) → 1 ≤ p → p ≤ 8 → prefix_mask p ≡ ok (2 ^ p - 1)
unfolding prefix_mask
prefix_mask-eq p lo hi = elim (Bool-cases (leb p 7)) [
  | inl small ↦ ground arith
  | inr large ↦ let e : p ≡ 8 = ground arith in rw e refl
]

-- A legal call that also meets the ceiling.
pub record IsCanonical (p high value : ℕ) : Type 0 where
  pub legal : IsLegal p high value
  pub ceiling : value ≤ integer_max

written_masked :
    (p high value : ℕ)
    → write_canonical_prevalidated p high value
      ≡ Integer.write_canonical (canonical_mask p) high value
unfolding write_canonical_prevalidated Integer.write_canonical
written_masked p high value = refl

pub written-wire :
    (p high value : ℕ)
    → IsLegal p high value
    → write_canonical_prevalidated p high value ≡ wire p high value
written-wire p high value h =
    written_masked p high value
    ∙ ap (λ (m : ℕ). Integer.write_canonical m high value)
        (canonical_mask-eq p h.at_least h.at_most)
    ∙ write_canonical-wire p high value h

encoded_len_same : (value mask : ℕ) → encoded_len value mask ≡ Integer.encoded_len value mask
unfolding encoded_len Integer.encoded_len
encoded_len_same value mask = refl

encoded_len-written :
    (p high value : ℕ)
    → IsLegal p high value
    → encoded_len value (2 ^ p - 1) ≡ length (write_canonical_prevalidated p high value)
encoded_len-written p high value h =
    encoded_len_same value (2 ^ p - 1)
    ∙ encoded_len-length p high value h.u64
    ∙ ap length (write_canonical-wire p high value h ∙ sym (written-wire p high value h))

canonical_encoded_len-masked :
    (p value : ℕ) → 1 ≤ p → p ≤ 8 → canonical_encoded_len value p ≡ encoded_len value (2 ^ p - 1)
canonical_encoded_len-masked p value lo hi =
    let e : canonical_encoded_len value p ≡ encoded_len value (canonical_mask p) =
      unfold canonical_encoded_len in refl in
    e ∙ ap (encoded_len value) (canonical_mask-eq p lo hi)

pub canonical_encoded_len-written :
    (p high value : ℕ)
    → IsLegal p high value
    → canonical_encoded_len value p ≡ length (write_canonical_prevalidated p high value)
canonical_encoded_len-written p high value h =
    canonical_encoded_len-masked p value h.at_least h.at_most ∙ encoded_len-written p high value h

-- The reader takes back what the prevalidated writer wrote, whatever follows.
pub parse-written :
    (p high value : ℕ) (more : List ℕ)
    → IsCanonical p high value
    → parse (write_canonical_prevalidated p high value ++ more) p
      ≡ ok (integer_from_prevalidated (write_canonical_prevalidated p high value) p high value)
unfolding integer_from_prevalidated same_error same_integer at_most_max
parse-written p high value more h =
    rw
      (
        written-wire p high value h.legal,
        parse-same (wire p high value ++ more) p,
        parse-wire p high value more h.legal,
        le→ltb integer_max value h.ceiling,
      )
      refl

build-eq_ok :
    (b : QpackIntegerBuilder)
    → IsCanonical b.prefix_bits b.high_bits b.value
    → encoded_len b.value (2 ^ b.prefix_bits - 1) ≤ length b.destination
    → build b ≡ (
      write_canonical_prevalidated b.prefix_bits b.high_bits b.value
          ++ drop (encoded_len b.value (2 ^ b.prefix_bits - 1)) b.destination,
      ok (
          integer_from_prevalidated
            (write_canonical_prevalidated b.prefix_bits b.high_bits b.value)
            b.prefix_bits
            b.high_bits
            b.value),
    )
unfolding build
build-eq_ok b h room =
    let n = encoded_len b.value (2 ^ b.prefix_bits - 1) in
    rw (build, prefix_mask-eq b.prefix_bits h.legal.at_least h.legal.at_most)
      (rw
        (
          build_masked,
          h.legal.clear,
          le→ltb integer_max b.value h.ceiling,
          le→ltb (length b.destination) n room,
        )
        refl)

-- For a prefix of 1 to 8 bits, high bits clear of the prefix, a 62-bit value and a destination
-- with room, `build` succeeds, `parse` reads the same view back from the destination, the length
-- of the destination is the same, and the bytes behind the encoding are those that were there.
pub parse-build_qpack_integer :
    (b : QpackIntegerBuilder)
    → IsCanonical b.prefix_bits b.high_bits b.value
    → canonical_encoded_len b.value b.prefix_bits ≤ length b.destination
    → let (dst, result) = build b in
      (v : QpackInteger) × (result ≡ ok v)
      × (v.value ≡ b.value)
      × (v.high_bits ≡ b.high_bits)
      × (parse dst b.prefix_bits ≡ ok v)
      × (length dst ≡ length b.destination)
      × (drop (length v.bytes) dst ≡ drop (length v.bytes) b.destination)
parse-build_qpack_integer b h room =
    let w = write_canonical_prevalidated b.prefix_bits b.high_bits b.value in
    let n = encoded_len b.value (2 ^ b.prefix_bits - 1) in
    let back = drop n b.destination in
    let size : n ≡ length w = encoded_len-written b.prefix_bits b.high_bits b.value h.legal in
    let fits : n ≤ length b.destination = omega (
      arith,
      canonical_encoded_len-masked b.prefix_bits b.value h.legal.at_least h.legal.at_most,
    ) in
    rw (build-eq_ok b h fits) (
      integer_from_prevalidated w b.prefix_bits b.high_bits b.value,
      refl,
      unfold integer_from_prevalidated in refl,
      unfold integer_from_prevalidated in refl,
      parse-written b.prefix_bits b.high_bits b.value back h,
      omega (arith, length-append w back, length-drop n b.destination),
      unfold integer_from_prevalidated in (drop-append w back ∙ rw size),
    )
