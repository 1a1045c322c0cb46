-- ===== src/Qpack/Instruction.antt =====
-- src/qpack/stream/decoder.rs and src/qpack/stream/decoder/builder.rs: the instructions that a
-- QPACK decoder sends to its encoder (RFC 9204, 4.4).
pub mod Sequence
pub mod RoundTrip
pub mod Written
use net_wire_rs.Common.{
  ℕ, zero, suc, ◌+◌, bit_and, ltb, ◌==◌, if◌then◌else◌, Bool, true, false, ◌||◌, List, [], ◌∷◌,
  ◌++◌, Option, none, some, length, drop,
}
use net_wire_rs.Common.Result.{Result, ok, err, ◌>>=◌, map_err}
use net_wire_rs.Qpack.Integer
use net_wire_rs.Qpack.Integer.{
  QpackInteger, QpackIntegerParseError, QpackIntegerBuildError, too_large, integer_max,
  canonical_encoded_len, write_canonical_prevalidated, integer_from_prevalidated,
}

pub record QpackSectionAcknowledgment : Type 0 where
  pub bytes : List ℕ
  pub stream_id : QpackInteger

pub record QpackStreamCancellation : Type 0 where
  pub bytes : List ℕ
  pub stream_id : QpackInteger

pub record QpackInsertCountIncrement : Type 0 where
  pub bytes : List ℕ
  pub increment : QpackInteger

pub data QpackDecoderInstruction : Type 0 where
  section_acknowledgment : QpackSectionAcknowledgment → QpackDecoderInstruction
  stream_cancellation : QpackStreamCancellation → QpackDecoderInstruction
  insert_count_increment : QpackInsertCountIncrement → QpackDecoderInstruction

pub data QpackDecoderInstructionParseError : Type 0 where
  dispatch_incomplete : QpackDecoderInstructionParseError
  bad_acknowledgment : QpackIntegerParseError → QpackDecoderInstructionParseError
  bad_cancellation : QpackIntegerParseError → QpackDecoderInstructionParseError
  bad_increment : QpackIntegerParseError → QpackDecoderInstructionParseError

-- QpackDecoderInstruction::parse
unfoldable pub parse : List ℕ → Result QpackDecoderInstructionParseError QpackDecoderInstruction
parse [] = err dispatch_incomplete
parse (first ∷ rest) =
    let bytes = first ∷ rest in
    if bit_and first 0x80 == 0
    then (if bit_and first 0xc0 == 0x40
        then (do
          stream_id ← map_err bad_cancellation (Integer.parse bytes 6)
          ok (stream_cancellation (record { bytes = stream_id.bytes; stream_id = stream_id })))
        else (do
          increment ← map_err bad_increment (Integer.parse bytes 6)
          ok (insert_count_increment (record { bytes = increment.bytes; increment = increment }))))
    else (do
      stream_id ← map_err bad_acknowledgment (Integer.parse bytes 7)
      ok (section_acknowledgment (record { bytes = stream_id.bytes; stream_id = stream_id })))

-- QpackDecoderInstruction::as_bytes
unfoldable pub as_bytes : QpackDecoderInstruction → List ℕ
as_bytes (section_acknowledgment i) = i.bytes
as_bytes (stream_cancellation i) = i.bytes
as_bytes (insert_count_increment i) = i.bytes

pub record QpackDecoderInstructionsParseError : Type 0 where
  pub offset : ℕ
  pub error : QpackDecoderInstructionParseError

-- The loop of QpackDecoderInstructions::parse; `none` means that the fuel ran out.
unfoldable pub parse_instructions_from :
    ℕ → ℕ → List ℕ → Option (Result QpackDecoderInstructionsParseError (Unit {0}))
unfolding as_bytes
parse_instructions_from zero offset bytes = none
parse_instructions_from (suc fuel) offset bytes =
    let more : Option (Result QpackDecoderInstructionsParseError (Unit {0})) =
      elim (parse (drop offset bytes)) [
        | ok i ↦ parse_instructions_from fuel (offset + length (as_bytes i)) bytes
        | err e ↦ some (err (record { offset = offset; error = e }))
      ] in
    if ltb offset (length bytes) then more else some (ok tt)

-- QpackDecoderInstructions::parse, whose view is the input itself.
unfoldable pub parse_instructions :
    List ℕ → Option (Result QpackDecoderInstructionsParseError (Unit {0}))
unfolding parse_instructions_from
parse_instructions bytes = parse_instructions_from (length bytes + 1) 0 bytes

pub record QpackDecoderInstructionIter : Type 0 where
  pub remaining : List ℕ
  pub offset : ℕ
  pub failed : Bool

-- QpackDecoderInstructions::iter
unfoldable pub iter : List ℕ → QpackDecoderInstructionIter
iter bytes = record { remaining = bytes; offset = 0; failed = false }

-- QpackDecoderInstructionIter::next, as the item and the iterator behind it.
unfoldable pub next :
    QpackDecoderInstructionIter
    → Option (Result QpackDecoderInstructionsParseError QpackDecoderInstruction)
      × QpackDecoderInstructionIter
unfolding as_bytes
next it = if it.failed || length it.remaining == 0 then (none, it) else elim (parse it.remaining) [
  | ok i ↦ (
    some (ok i),
    record it {
      remaining = drop (length (as_bytes i)) it.remaining;
      offset = it.offset + length (as_bytes i);
    },
  )
  | err e ↦ (some (err (record { offset = it.offset; error = e })), record it { failed = true })
]

pub data QpackDecoderInstructionBuildError : Type 0 where
  cannot_acknowledge : QpackIntegerBuildError → QpackDecoderInstructionBuildError
  cannot_cancel : QpackIntegerBuildError → QpackDecoderInstructionBuildError
  cannot_increment : QpackIntegerBuildError → QpackDecoderInstructionBuildError
  buffer_too_short : ℕ → ℕ → QpackDecoderInstructionBuildError

unfoldable pub integer_length : ℕ → ℕ → Result QpackIntegerBuildError ℕ
integer_length value prefix_bits =
    if ltb integer_max value
    then err (too_large value)
    else ok (canonical_encoded_len value prefix_bits)

unfoldable pub ensure_capacity : List ℕ → ℕ → Result QpackDecoderInstructionBuildError (Unit {0})
ensure_capacity destination required =
    if ltb (length destination) required
    then err (buffer_too_short required (length destination))
    else ok tt

-- The common course of the three `build` functions: the destination behind the call and the bytes
-- written with their integer.
unfoldable pub build_with :
    (QpackIntegerBuildError → QpackDecoderInstructionBuildError)
    → ℕ
    → ℕ
    → List ℕ
    → ℕ
    → List ℕ × Result QpackDecoderInstructionBuildError (List ℕ × QpackInteger)
unfolding integer_length ensure_capacity
build_with failed prefix_bits high_bits destination value =
    elim (do
      n ← map_err failed (integer_length value prefix_bits)
      _ ← ensure_capacity destination n
      ok n) [
        | ok n ↦
            let bytes = write_canonical_prevalidated prefix_bits high_bits value in
            (
              bytes ++ drop n destination,
              ok (bytes, integer_from_prevalidated bytes prefix_bits high_bits value),
            )
        | err e ↦ (destination, err e)
      ]

-- QpackSectionAcknowledgmentBuilder::build
unfoldable pub build_acknowledgment :
    List ℕ → ℕ → List ℕ × Result QpackDecoderInstructionBuildError QpackSectionAcknowledgment
build_acknowledgment destination stream_id =
    let (d, r) = build_with cannot_acknowledge 7 0x80 destination stream_id in
    (d, r >>= λ v. ok (record { bytes = v.0; stream_id = v.1 }))

-- QpackStreamCancellationBuilder::build
unfoldable pub build_cancellation :
    List ℕ → ℕ → List ℕ × Result QpackDecoderInstructionBuildError QpackStreamCancellation
build_cancellation destination stream_id =
    let (d, r) = build_with cannot_cancel 6 0x40 destination stream_id in
    (d, r >>= λ v. ok (record { bytes = v.0; stream_id = v.1 }))

-- QpackInsertCountIncrementBuilder::build
unfoldable pub build_increment :
    List ℕ → ℕ → List ℕ × Result QpackDecoderInstructionBuildError QpackInsertCountIncrement
build_increment destination increment =
    let (d, r) = build_with cannot_increment 6 0 destination increment in
    (d, r >>= λ v. ok (record { bytes = v.0; increment = v.1 }))
