-- ===== src/Hpack/Integer/RoundTrip.antt =====
-- `parse` and `build` of src/http2/hpack/integer.rs together.
use net_wire_rs.Common.{ℕ, suc, ◌+◌, ◌-◌, ◌*◌, ◌/◌, ◌%◌, ◌^◌, ◌<◌, ◌≤◌, bit_and, bit_or, arith}
use net_wire_rs.Common.{
  List, [], ◌∷◌, ◌++◌, ltb, leb, if◌then◌else◌, length, ◌≡◌, refl, ap, sym, ◌∙◌, max,
}
use net_wire_rs.Common.{
  Bool-cases, ltb→lt, ltb→le, lt→ltb, le→ltb, inl, inr, take, drop, length-append, length-drop,
  take-append, drop-append,
}
use net_wire_rs.Common.Bits.{and_low_bits, and_high_bits, bit_or-shift, all_below, agree_on_widths}
use net_wire_rs.Common.Result.{ok, word}
use net_wire_rs.Common.Order.{lt_wf}
use net_wire_rs.Hpack.Integer.{
  HpackInteger, HpackIntegerBuilder, prefix_mask, parse, parse_masked, parse_loop, encoded_len,
  write_canonical, build, build_masked,
}
use net_wire_rs.Hpack.Integer.Written.{groups, octets-groups, rounds-octets}
use net_wire_rs.Hpack.Integer.Parsed.{parse_loop-groups}
use native.Mathlib.Nat.{
  pow-le-pow_right, div-add-mod, mod-add-mod, mod-eq_of_lt, mul-add-div_right, div-eq_of_lt,
}

-- The mask of a legal prefix width.
pub prefix_mask-eq_ok : (p : ℕ) → 1 ≤ p → p ≤ 8 → prefix_mask p ≡ ok (2 ^ p - 1)
unfolding prefix_mask
prefix_mask-eq_ok p lo hi = elim (Bool-cases (leb p 7)) [
  | inl small ↦ ground arith
  | inr large ↦ let e : p ≡ 8 = ground arith in rw e refl
]

-- What a legal call writes: the high bits over the value or the full mask, and the groups.
unfoldable pub wire : ℕ → ℕ → ℕ → List ℕ
unfolding groups
wire p high value =
    if ltb value (2 ^ p - 1)
    then (high + value) ∷ []
    else (high + (2 ^ p - 1)) ∷ groups 9 (value - (2 ^ p - 1))

pub pow_range : (p : ℕ) → 1 ≤ p → p ≤ 8 → (2 ≤ 2 ^ p) × (2 ^ p ≤ 256)
pow_range p lo hi =
    let a : 2 ^ 1 ≤ 2 ^ p = pow-le-pow_right (omega arith) lo in
    let b : 2 ^ p ≤ 2 ^ 8 = pow-le-pow_right (omega arith) hi in (omega arith, omega arith)

-- Bits above the prefix, `|` a number that fits the prefix.
high_or :
    (p high r : ℕ)
    → 1 ≤ p
    → p ≤ 8
    → high < 256
    → bit_and high (2 ^ p - 1) ≡ 0
    → r < 2 ^ p
    → bit_or high r ≡ high + r
high_or p high r lo hi hb clear hr =
    let low : high % 2 ^ p ≡ 0 = sym (and_low_bits p high (omega arith) hb) ∙ clear in
    let e : high / 2 ^ p * 2 ^ p ≡ high = omega (arith, div-add-mod high (2 ^ p)) in
    ap (λ (t : ℕ). bit_or t r) (sym e)
    ∙ bit_or-shift p (high / 2 ^ p) r hr
    ∙ ap (λ (t : ℕ). t + r) e

block_end : (p b : ℕ) → p < 9 → b < 256 → max (b / 2 ^ p * 2 ^ p + (2 ^ p - 1)) 255 ≡ 255
unfolding all_below
block_end = agree_on_widths (λ p b. max (b / 2 ^ p * 2 ^ p + (2 ^ p - 1)) 255) (λ p b. 255) refl

-- The masks take a first byte apart again.
pub first_byte_parts :
    (p high r : ℕ)
    → 1 ≤ p
    → p ≤ 8
    → high < 256
    → bit_and high (2 ^ p - 1) ≡ 0
    → r < 2 ^ p
    → (high + r < 256)
      × (bit_and (high + r) (2 ^ p - 1) ≡ r)
      × (bit_and (high + r) (255 - (2 ^ p - 1)) ≡ high)
first_byte_parts p high r lo hi hb clear hr =
    let low : high % 2 ^ p ≡ 0 = sym (and_low_bits p high (omega arith) hb) ∙ clear in
    let pos : 0 < 2 ^ p = omega (arith, pow_range p lo hi) in
    let q = high / 2 ^ p in
    let e : q * 2 ^ p ≡ high = omega (arith, div-add-mod high (2 ^ p)) in
    let top : high + r < 256 = omega (arith, block_end p high (omega arith) hb) in
    let rem : (high + r) % 2 ^ p ≡ r =
      sym (mod-add-mod high (2 ^ p) r) ∙ rw low (ground (arith, mod-eq_of_lt hr)) in
    let quo : (high + r) / 2 ^ p ≡ q =
      ap (λ (t : ℕ). (t + r) / 2 ^ p) (sym e)
      ∙ mul-add-div_right pos q r
      ∙ rw (div-eq_of_lt hr) (omega arith) in
    (
      top,
      and_low_bits p (high + r) (omega arith) top ∙ rem,
      and_high_bits p (high + r) (omega arith) top ∙ rw quo e,
    )

-- The arguments of a legal call of the writer.
pub record IsLegal (p high value : ℕ) : Type 0 where
  pub at_least : 1 ≤ p
  pub at_most : p ≤ 8
  pub byte : high < 256
  pub clear : bit_and high (2 ^ p - 1) ≡ 0
  pub u64 : value < word

pub write_canonical-wire :
    (p high value : ℕ)
    → IsLegal p high value
    → write_canonical (2 ^ p - 1) high value ≡ wire p high value
unfolding write_canonical wire
write_canonical-wire p high value h =
    let (lo, up) = pow_range p h.at_least h.at_most in
    elim (Bool-cases (ltb value (2 ^ p - 1))) [
      | inl small ↦
          let lt : value < 2 ^ p - 1 = ltb→lt value _ small in
          let e : value % 256 ≡ value = omega arith in
          rw (small, e)
            (ap (λ (t : ℕ). t ∷ [])
              (high_or p high value h.at_least h.at_most h.byte h.clear (omega arith)))
      | inr large ↦
          let fits : value - (2 ^ p - 1) < 128 ^ 10 = omega arith in
          rw (
            large,
            high_or p high (2 ^ p - 1) h.at_least h.at_most h.byte h.clear (omega arith),
            octets-groups 9 (value - (2 ^ p - 1)) (lt_wf.apply _) fits,
          )
    ]

-- For a u64 value, the length that `encoded_len` computes in advance is the number of bytes that
-- `write_canonical` writes.
pub encoded_len-length :
    (p high value : ℕ)
    → value < word
    → encoded_len value (2 ^ p - 1) ≡ length (write_canonical (2 ^ p - 1) high value)
unfolding encoded_len write_canonical
encoded_len-length p high value h =
    let r = value - (2 ^ p - 1) in ground (arith, rounds-octets 9 r (lt_wf.apply r) (lt_wf.apply r))

parse_masked-small :
    (p mask first : ℕ) (rest : List ℕ)
    → bit_and first mask < mask
    → parse_masked p mask (first ∷ rest)
      ≡ ok (record {
        bytes = first ∷ [];
        prefix_bits = p;
        value = bit_and first mask;
        high_bits = bit_and first (255 - mask);
      })
unfolding parse_masked
parse_masked-small p mask first rest h = rw (lt→ltb (bit_and first mask) mask h)

parse_masked-large :
    (p mask first v i : ℕ) (rest : List ℕ)
    → mask ≤ bit_and first mask
    → parse_loop mask 0 1 (suc (length rest)) rest ≡ ok (v, i)
    → parse_masked p mask (first ∷ rest)
      ≡ ok (record {
        bytes = take i (first ∷ rest);
        prefix_bits = p;
        value = v;
        high_bits = bit_and first (255 - mask);
      })
unfolding parse_masked
parse_masked-large p mask first v i rest h e = rw (le→ltb (bit_and first mask) mask h, e)

pub parse-masked :
    (p : ℕ) (bytes : List ℕ) → 1 ≤ p → p ≤ 8 → parse bytes p ≡ parse_masked p (2 ^ p - 1) bytes
unfolding parse
parse-masked p bytes lo hi = rw (prefix_mask-eq_ok p lo hi)

-- `parse` reads a legal encoding back, with its high bits, whatever follows.
pub parse-wire :
    (p high value : ℕ) (more : List ℕ)
    → IsLegal p high value
    → parse (wire p high value ++ more) p
      ≡ ok (record { bytes = wire p high value; prefix_bits = p; value = value; high_bits = high })
parse-wire p high value more h =
    let mask = 2 ^ p - 1 in
    let (lo, up) = pow_range p h.at_least h.at_most in
    elim (Bool-cases (ltb value mask)) [
      | inl small ↦
          let lt : value < mask = ltb→lt value mask small in
          let (byte, v, hb) =
            first_byte_parts p high value h.at_least h.at_most h.byte h.clear (omega arith) in
          unfold wire in
          rw small (
            parse-masked p _ h.at_least h.at_most
            ∙ parse_masked-small p mask (high + value) more (rw v lt)
            ∙ rw (v, hb))
      | inr large ↦
          let le : mask ≤ value = ltb→le value mask large in
          let r = value - mask in
          let (byte, v, hb) =
            first_byte_parts p high mask h.at_least h.at_most h.byte h.clear (omega arith) in
          let u64 = h.u64 in
          let read =
            parse_loop-groups 9 r mask 0 1 (suc (length (groups 9 r ++ more))) more (omega arith)
              (omega arith) (omega arith) (omega arith) in
          let whole : mask + r * 2 ^ 0 ≡ value = omega arith in
          let front : take (1 + length (groups 9 r)) ((high + mask) ∷ (groups 9 r ++ more))
              ≡ (high + mask) ∷ groups 9 r =
            rw one-add (ap (◌∷◌ (high + mask)) (take-append (groups 9 r) more)) in
          unfold wire in
          rw large (
            parse-masked p _ h.at_least h.at_most
            ∙ parse_masked-large p mask (high + mask) _ _ (groups 9 r ++ more) (rw v (omega arith))
                read
            ∙ rw (front, whole, hb))
    ]
  where
    one-add : {n : ℕ} → 1 + n ≡ suc n
    one-add = omega arith

build-eq_ok :
    (b : HpackIntegerBuilder)
    → IsLegal b.prefix_bits b.high_bits b.value
    → encoded_len b.value (2 ^ b.prefix_bits - 1) ≤ length b.destination
    → build b ≡ (
      write_canonical (2 ^ b.prefix_bits - 1) b.high_bits b.value
          ++ drop (encoded_len b.value (2 ^ b.prefix_bits - 1)) b.destination,
      ok (record {
        bytes = write_canonical (2 ^ b.prefix_bits - 1) b.high_bits b.value;
        prefix_bits = b.prefix_bits;
        value = b.value;
        high_bits = b.high_bits;
      }),
    )
unfolding build write_canonical
build-eq_ok b h room =
    let n = encoded_len b.value (2 ^ b.prefix_bits - 1) in
    rw (build, prefix_mask-eq_ok b.prefix_bits h.at_least h.at_most)
      (rw (build_masked, h.clear, le→ltb (length b.destination) n room) refl)

-- For a prefix of 1 to 8 bits, high bits clear of the prefix, a u64 value and a destination with
-- room, `build` succeeds, `parse` reads the same view back from the destination, the length of the
-- destination is the same, and the bytes behind the encoding are those that were there.
pub parse-build_integer :
    (b : HpackIntegerBuilder)
    → IsLegal b.prefix_bits b.high_bits b.value
    → encoded_len b.value (2 ^ b.prefix_bits - 1) ≤ length b.destination
    → let (dst, result) = build b in
      (v : HpackInteger) × (result ≡ ok v)
      × (v.value ≡ b.value)
      × (v.high_bits ≡ b.high_bits)
      × (parse dst b.prefix_bits ≡ ok v)
      × (length dst ≡ length b.destination)
      × (drop (length v.bytes) dst ≡ drop (length v.bytes) b.destination)
parse-build_integer b h room =
    let w = wire b.prefix_bits b.high_bits b.value in
    let n = encoded_len b.value (2 ^ b.prefix_bits - 1) in
    let back = drop n b.destination in
    let written = write_canonical-wire b.prefix_bits b.high_bits b.value h in
    let size : n ≡ length w =
      encoded_len-length b.prefix_bits b.high_bits b.value h.u64 ∙ ap length written in
    rw (build-eq_ok b h room, written)
      (
        record { bytes = w; prefix_bits = b.prefix_bits; value = b.value; high_bits = b.high_bits },
        refl,
        refl,
        refl,
        parse-wire b.prefix_bits b.high_bits b.value back h,
        omega (arith, length-append w back, length-drop n b.destination),
        drop-append w back ∙ rw size,
      )
