-- ===== src/Qpack/Instruction/RoundTrip.antt =====
-- The readers of src/qpack/stream/decoder.rs on what src/qpack/stream/decoder/builder.rs writes.
use net_wire_rs.Common.{
  ℕ, ◌+◌, ◌-◌, ◌^◌, ◌≤◌, ◌<◌, bit_and, ltb, ◌==◌, List, [], ◌∷◌, ◌++◌, All, ◌≡◌, refl, sym, ap,
  subst, ◌∙◌, arith, Bool-cases, inl, inr, ltb→lt, drop-append, false, true,
}
use net_wire_rs.Common.Bits.{and_top_bit, and_high_bits}
use net_wire_rs.Common.Result.{ok}
use net_wire_rs.Hpack.Integer.RoundTrip.{IsLegal, wire, pow_range, first_byte_parts}
use net_wire_rs.Hpack.Integer.Written.{groups}
use net_wire_rs.Qpack.Integer
use net_wire_rs.Qpack.Integer.{
  QpackInteger, integer_max, write_canonical_prevalidated, integer_from_prevalidated,
  canonical_encoded_len,
}
use net_wire_rs.Qpack.Integer.RoundTrip.{IsCanonical, written-wire, parse-written}
use net_wire_rs.Qpack.Instruction.{
  QpackDecoderInstruction, section_acknowledgment, stream_cancellation, insert_count_increment,
  parse, as_bytes,
}
use net_wire_rs.Qpack.Instruction.Sequence.{Reads, ended, read_next}

-- A first byte carries the high bits that were asked for.
written_first :
    (p high value : ℕ)
    → IsLegal p high value
    → (first : ℕ) × (rest : List ℕ) × (write_canonical_prevalidated p high value ≡ first ∷ rest)
      × (first < 256)
      × (bit_and first (255 - (2 ^ p - 1)) ≡ high)
written_first p high value h =
    let mask = 2 ^ p - 1 in
    let (lo, up) = pow_range p h.at_least h.at_most in
    let w = written-wire p high value h in
    elim (Bool-cases (ltb value mask)) [
      | inl small ↦
          let (byte, _, hb) =
            first_byte_parts p high value h.at_least h.at_most h.byte h.clear
              (omega (arith, ltb→lt value mask small)) in
          (high + value, [], w ∙ unfold wire in rw small refl, byte, hb)
      | inr large ↦
          let (byte, _, hb) =
            first_byte_parts p high mask h.at_least h.at_most h.byte h.clear (omega arith) in
          (high + mask, groups 9 (value - mask), w ∙ unfold wire in rw large refl, byte, hb)
    ]

-- What a decoder has to say.
pub data Message : Type 0 where
  acknowledgment : ℕ → Message
  cancellation : ℕ → Message
  increment : ℕ → Message

unfoldable pub value_of : Message → ℕ
value_of (acknowledgment n) = n
value_of (cancellation n) = n
value_of (increment n) = n

abbrev pub integer_of : ℕ → ℕ → ℕ → QpackInteger
integer_of p high n = integer_from_prevalidated (write_canonical_prevalidated p high n) p high n

unfoldable pub instruction_of : Message → QpackDecoderInstruction
instruction_of (acknowledgment n) =
    section_acknowledgment
      (record { bytes = write_canonical_prevalidated 7 0x80 n; stream_id = integer_of 7 0x80 n })
instruction_of (cancellation n) =
    stream_cancellation
      (record { bytes = write_canonical_prevalidated 6 0x40 n; stream_id = integer_of 6 0x40 n })
instruction_of (increment n) =
    insert_count_increment
      (record { bytes = write_canonical_prevalidated 6 0 n; increment = integer_of 6 0 n })

pub canonical :
    (p high n : ℕ)
    → 1 ≤ p
    → p ≤ 8
    → high < 256
    → bit_and high (2 ^ p - 1) ≡ 0
    → n ≤ integer_max
    → IsCanonical p high n
canonical p high n lo hi byte clear h = record {
  legal = record { at_least = lo; at_most = hi; byte = byte; clear = clear; u64 = omega arith };
  ceiling = h;
}

parse-high :
    (p high n : ℕ) (more : List ℕ)
    → IsCanonical p high n
    → (first : ℕ) × (rest : List ℕ) × (write_canonical_prevalidated p high n ++ more ≡ first ∷ rest)
      × (first < 256)
      × (bit_and first (255 - (2 ^ p - 1)) ≡ high)
      × (Integer.parse (first ∷ rest) p ≡ ok (integer_of p high n))
parse-high p high n more h =
    let (first, rest, w, byte, hb) = written_first p high n h.legal in
    let all : write_canonical_prevalidated p high n ++ more ≡ first ∷ (rest ++ more) =
      ap (λ (x : List ℕ). x ++ more) w in
    (
      first,
      rest ++ more,
      all,
      byte,
      hb,
      ap (λ (x : List ℕ). Integer.parse x p) (sym all) ∙ parse-written p high n more h,
    )

-- The reader takes a message back from what its builder writes, whatever follows.
pub parse-instruction_of :
    (m : Message) (more : List ℕ)
    → value_of m ≤ integer_max
    → parse (as_bytes (instruction_of m) ++ more) ≡ ok (instruction_of m)
unfolding parse as_bytes instruction_of value_of integer_from_prevalidated
parse-instruction_of (acknowledgment n) more h =
    let c = canonical 7 0x80 n (omega arith) (omega arith) (omega arith) refl h in
    let (first, rest, w, byte, hb, read) = parse-high 7 0x80 n more c in
    let top : (bit_and first 0x80 == 0) ≡ false = ground arith in rw w (rw (parse, top, read) refl)
parse-instruction_of (cancellation n) more h =
    let c = canonical 6 0x40 n (omega arith) (omega arith) (omega arith) refl h in
    let (first, rest, w, byte, hb, read) = parse-high 6 0x40 n more c in
    let top : (bit_and first 0x80 == 0) ≡ true =
      ground (arith, and_top_bit first byte, and_high_bits 6 first (omega arith) byte) in
    let two : (bit_and first 0xc0 == 0x40) ≡ true = ground arith in
    rw w (rw (parse, top, two, read) refl)
parse-instruction_of (increment n) more h =
    let c = canonical 6 0 n (omega arith) (omega arith) (omega arith) refl h in
    let (first, rest, w, byte, hb, read) = parse-high 6 0 n more c in
    let top : (bit_and first 0x80 == 0) ≡ true =
      ground (arith, and_top_bit first byte, and_high_bits 6 first (omega arith) byte) in
    let two : (bit_and first 0xc0 == 0x40) ≡ false = ground arith in
    rw w (rw (parse, top, two, read) refl)

unfoldable pub sent : List Message → List ℕ
sent [] = []
sent (m ∷ ms) = as_bytes (instruction_of m) ++ sent ms

unfoldable pub instructions_of : List Message → List QpackDecoderInstruction
instructions_of [] = []
instructions_of (m ∷ ms) = instruction_of m ∷ instructions_of ms

-- What the builders write for a run of messages is read as these.
pub Reads-sent :
    (ms : List Message)
    → All (λ m. value_of m ≤ integer_max) ms
    → Reads (sent ms) (instructions_of ms)
unfolding sent instructions_of
Reads-sent [] h = ended
Reads-sent (m ∷ ms) (h, hs) =
    read_next (as_bytes (instruction_of m) ++ sent ms) (parse-instruction_of m (sent ms) h) (
      subst (λ (x : List ℕ). Reads x (instructions_of ms))
        (sym (drop-append (as_bytes (instruction_of m)) (sent ms))) (Reads-sent ms hs))
