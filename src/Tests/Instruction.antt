-- ===== src/Tests/Instruction.antt =====
-- src/qpack/integer.rs and src/qpack/stream/decoder.rs on small inputs.
use net_wire_rs.Common.{ℕ, ◌≤◌, ◌<◌, List, [], ◌∷◌, ◌++◌, length, drop, some, ◌≡◌, refl, ◌⊎◌, arith}
use net_wire_rs.Common.Result.{ok, err, ◌>>=◌, map_err}
use native.Mathlib.Decide.{dec_lt}
use net_wire_rs.Hpack.Integer
use net_wire_rs.Qpack.Integer as Integer62
use net_wire_rs.Qpack.Integer.{
  QpackInteger, QpackIntegerBuilder, too_large, integer_max, canonical_encoded_len,
}
use net_wire_rs.Qpack.Integer.Same.{same_error, at_most_max, parse-same}
use net_wire_rs.Qpack.Integer.RoundTrip.{IsCanonical, parse-build_qpack_integer}
use net_wire_rs.Qpack.Instruction.{
  QpackDecoderInstruction, QpackDecoderInstructionsParseError, buffer_too_short, parse,
  parse_instructions, as_bytes,
}
use net_wire_rs.Qpack.Instruction.Sequence.{Reads, StopsWith, parse_instructions_total}
use net_wire_rs.Qpack.Instruction.RoundTrip.{cancellation, value_of, instruction_of}
use net_wire_rs.Qpack.Instruction.Written.{built, refusal_of, built_cases}

-- Ten octets above the 62-bit ceiling.
abbrev large : List ℕ
large = 127 ∷ 255 ∷ 255 ∷ 255 ∷ 255 ∷ 255 ∷ 255 ∷ 255 ∷ 255 ∷ 127 ∷ []

parse-same_example :
    Integer62.parse large 7 ≡ (map_err same_error (Integer.parse large 7) >>= at_most_max)
parse-same_example = parse-same large 7

abbrev builder : QpackIntegerBuilder
builder = record { destination = 0 ∷ 0 ∷ 0 ∷ 0 ∷ []; prefix_bits = 5; high_bits = 64; value = 1337 }

builder-IsCanonical : IsCanonical 5 64 1337
builder-IsCanonical = record {
  legal = record {
    at_least = omega arith;
    at_most = omega arith;
    byte = omega arith;
    clear = refl;
    u64 = omega arith;
  };
  ceiling = omega arith;
}

builder_room : canonical_encoded_len 1337 5 ≤ 4
unfolding canonical_encoded_len dec_lt
builder_room = let e : canonical_encoded_len 1337 5 ≡ 3 = refl in omega (arith, e)

parse-build_qpack_integer_example :
    let (dst, result) = Integer62.build builder in
    (v : QpackInteger) × (result ≡ ok v)
    × (v.value ≡ 1337)
    × (v.high_bits ≡ 64)
    × (Integer62.parse dst 5 ≡ ok v)
    × (length dst ≡ 4)
    × (drop (length v.bytes) dst ≡ drop (length v.bytes) (0 ∷ 0 ∷ 0 ∷ 0 ∷ []))
parse-build_qpack_integer_example =
    parse-build_qpack_integer builder builder-IsCanonical builder_room

-- An acknowledgment of stream 4 and an increment whose last octet is missing.
abbrev cut_short : List ℕ
cut_short = 0x84 ∷ 0x3f ∷ []

parse_instructions_total_example :
    ((is : List QpackDecoderInstruction) × (parse_instructions cut_short ≡ some (ok tt))
      × Reads cut_short is)
    ⊎ ((is : List QpackDecoderInstruction) × (e : QpackDecoderInstructionsParseError)
        × (parse_instructions cut_short ≡ some (err e))
        × StopsWith e.error cut_short is e.offset
        × (e.offset < 2))
parse_instructions_total_example = parse_instructions_total cut_short

built_cases_example :
    let m = cancellation 4 in
    let w = as_bytes (instruction_of m) in
    ((integer_max < value_of m)
      × (built (7 ∷ 7 ∷ []) m ≡ (7 ∷ 7 ∷ [], err (refusal_of m (too_large (value_of m))))))
    ⊎ (((value_of m ≤ integer_max)
          × (2 < length w)
          × (built (7 ∷ 7 ∷ []) m ≡ (7 ∷ 7 ∷ [], err (buffer_too_short (length w) 2))))
        ⊎ ((value_of m ≤ integer_max)
            × (length w ≤ 2)
            × (built (7 ∷ 7 ∷ []) m ≡ (w ++ drop (length w) (7 ∷ 7 ∷ []), ok (instruction_of m)))
            × (parse (built (7 ∷ 7 ∷ []) m).0 ≡ ok (instruction_of m))))
built_cases_example = built_cases (cancellation 4) (7 ∷ 7 ∷ [])
