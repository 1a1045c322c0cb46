-- ===== src/Qpack/Instruction/Written.antt =====
-- What the three builders of src/qpack/stream/decoder/builder.rs do on any call.
use net_wire_rs.Common.{
  ℕ, ◌≤◌, ◌<◌, ◌^◌, ◌-◌, bit_and, List, ◌++◌, length, drop, ltb, ◌≡◌, refl, ◌⊎◌, inl, inr, arith,
  Bool-cases, ltb→le, ltb→lt,
}
use net_wire_rs.Common.Result.{Result, ok, err, ◌>>=◌}
use net_wire_rs.Qpack.Integer.{
  QpackIntegerBuildError, too_large, integer_max, write_canonical_prevalidated,
}
use net_wire_rs.Qpack.Integer.RoundTrip.{canonical_encoded_len-written}
use net_wire_rs.Qpack.Instruction.{
  QpackDecoderInstruction, QpackDecoderInstructionBuildError, section_acknowledgment,
  stream_cancellation, insert_count_increment, cannot_acknowledge, cannot_cancel, cannot_increment,
  buffer_too_short, integer_length, ensure_capacity, build_with, build_acknowledgment,
  build_cancellation, build_increment, as_bytes, parse,
}
use net_wire_rs.Qpack.Instruction.RoundTrip.{
  Message, acknowledgment, cancellation, increment, value_of, instruction_of, integer_of, canonical,
  parse-instruction_of,
}

-- The builder of a message.
unfoldable pub built :
    List ℕ → Message → List ℕ × Result QpackDecoderInstructionBuildError QpackDecoderInstruction
built destination (acknowledgment n) =
    let (d, r) = build_acknowledgment destination n in (d, r >>= λ i. ok (section_acknowledgment i))
built destination (cancellation n) =
    let (d, r) = build_cancellation destination n in (d, r >>= λ i. ok (stream_cancellation i))
built destination (increment n) =
    let (d, r) = build_increment destination n in (d, r >>= λ i. ok (insert_count_increment i))

-- The error that a message's builder wraps.
unfoldable pub refusal_of : Message → QpackIntegerBuildError → QpackDecoderInstructionBuildError
refusal_of (acknowledgment n) = cannot_acknowledge
refusal_of (cancellation n) = cannot_cancel
refusal_of (increment n) = cannot_increment

pub build_with_cases :
    (failed : QpackIntegerBuildError → QpackDecoderInstructionBuildError) (p high n : ℕ)
    (destination : List ℕ)
    → 1 ≤ p
    → p ≤ 8
    → high < 256
    → bit_and high (2 ^ p - 1) ≡ 0
    → let w = write_canonical_prevalidated p high n in
      ((integer_max < n)
        × (build_with failed p high destination n ≡ (destination, err (failed (too_large n)))))
      ⊎ (((n ≤ integer_max)
            × (length destination < length w)
            × (build_with failed p high destination n
                ≡ (destination, err (buffer_too_short (length w) (length destination)))))
          ⊎ ((n ≤ integer_max)
              × (length w ≤ length destination)
              × (build_with failed p high destination n
                  ≡ (w ++ drop (length w) destination, ok (w, integer_of p high n)))))
unfolding build_with integer_length ensure_capacity
build_with_cases failed p high n destination lo hi byte clear =
    elim (Bool-cases (ltb integer_max n)) [
      | inl large ↦ inl (ltb→lt _ _ large, rw (build_with, large))
      | inr legal ↦
          let c = canonical p high n lo hi byte clear (ltb→le _ _ legal) in
          let size = canonical_encoded_len-written p high n c.legal in
          let w = write_canonical_prevalidated p high n in
          elim (Bool-cases (ltb (length destination) (length w))) [
            | inl short ↦
                inr (inl (ltb→le _ _ legal, ltb→lt _ _ short, rw (build_with, legal, size, short)))
            | inr room ↦
                inr (inr (ltb→le _ _ legal, ltb→le _ _ room, rw (build_with, legal, size, room)))
          ]
    ]

-- The builder of a decoder instruction refuses a value above 2 ^ 62 - 1, then a destination that
-- is too short, and changes nothing; otherwise it writes the instruction at the front of the
-- destination, and `parse` reads it back from there.
pub built_cases :
    (m : Message) (destination : List ℕ)
    → let w = as_bytes (instruction_of m) in
      ((integer_max < value_of m)
        × (built destination m ≡ (destination, err (refusal_of m (too_large (value_of m))))))
      ⊎ (((value_of m ≤ integer_max)
            × (length destination < length w)
            × (built destination m
                ≡ (destination, err (buffer_too_short (length w) (length destination)))))
          ⊎ ((value_of m ≤ integer_max)
              × (length w ≤ length destination)
              × (built destination m ≡ (w ++ drop (length w) destination, ok (instruction_of m)))
              × (parse (built destination m).0 ≡ ok (instruction_of m))))
unfolding built refusal_of value_of as_bytes instruction_of build_acknowledgment build_cancellation
    build_increment
built_cases (acknowledgment n) destination =
    elim (build_with_cases cannot_acknowledge 7 0x80 n destination (omega arith) (omega arith)
      (omega arith) refl) [
        | inl (l, q) ↦ inl (l, rw (build_acknowledgment, q))
        | inr (inl (l, s, q)) ↦ inr (inl (l, s, rw (build_acknowledgment, q)))
        | inr (inr (l, s, q)) ↦ inr (
            inr (
              l,
              s,
              rw (build_acknowledgment, q),
              rw (build_acknowledgment, q) (parse-instruction_of (acknowledgment n) _ l),
            ))
      ]
built_cases (cancellation n) destination =
    elim (build_with_cases cannot_cancel 6 0x40 n destination (omega arith) (omega arith)
      (omega arith) refl) [
        | inl (l, q) ↦ inl (l, rw (build_cancellation, q))
        | inr (inl (l, s, q)) ↦ inr (inl (l, s, rw (build_cancellation, q)))
        | inr (inr (l, s, q)) ↦ inr (
            inr (
              l,
              s,
              rw (build_cancellation, q),
              rw (build_cancellation, q) (parse-instruction_of (cancellation n) _ l),
            ))
      ]
built_cases (increment n) destination =
    elim (build_with_cases cannot_increment 6 0 n destination (omega arith) (omega arith)
      (omega arith) refl) [
        | inl (l, q) ↦ inl (l, rw (build_increment, q))
        | inr (inl (l, s, q)) ↦ inr (inl (l, s, rw (build_increment, q)))
        | inr (inr (l, s, q)) ↦ inr (
            inr (
              l,
              s,
              rw (build_increment, q),
              rw (build_increment, q) (parse-instruction_of (increment n) _ l),
            ))
      ]
