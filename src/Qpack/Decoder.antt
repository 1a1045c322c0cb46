-- ===== src/Qpack/Decoder.antt =====
-- src/qpack/state/decoder.rs: the decoder's account of what it has confirmed to the encoder. A call
-- returns the state and the destination behind it beside its result. Of a decoded field section
-- only its two accessors are asked, so their answers are the arguments.
pub mod Agreement
use net_wire_rs.Common.{ℕ, ◌-◌, min, max, ltb, ◌==◌, if◌then◌else◌, Bool, List, Option, none, some}
use net_wire_rs.Common.Result.{Result, ok, err, map_err, checked_add}
use net_wire_rs.Qpack.Integer.{integer_max}
use net_wire_rs.Qpack.Instruction.{
  QpackSectionAcknowledgment, QpackStreamCancellation, QpackInsertCountIncrement,
  QpackDecoderInstructionBuildError, build_acknowledgment, build_cancellation, build_increment,
}

pub record QpackDecoderState : Type 0 where
  pub known_received_count : ℕ

pub data QpackDecoderFeedbackError : Type 0 where
  insert_count_regression : ℕ → ℕ → QpackDecoderFeedbackError
  insert_count_advance_overflow : ℕ → ℕ → QpackDecoderFeedbackError
  instruction_build : QpackDecoderInstructionBuildError → QpackDecoderFeedbackError

-- QpackDecoderState::new
unfoldable pub new_decoder : QpackDecoderState
new_decoder = record { known_received_count = 0 }

-- What a call leaves: a count that advanced if the instruction was written.
unfoldable pub advanced_by {ℓ} :
    {I : Type ℓ}
    → QpackDecoderState
    → ℕ
    → List ℕ × Result QpackDecoderInstructionBuildError I
    → QpackDecoderState × List ℕ × Result QpackDecoderFeedbackError (Option I)
advanced_by s count (d, ok i) = (record s { known_received_count = count }, d, ok (some i))
advanced_by s count (d, err e) = (s, d, err (instruction_build e))

unfoldable pub acknowledge_field_section :
    QpackDecoderState
    → List ℕ
    → ℕ
    → Bool
    → ℕ
    → QpackDecoderState
      × List ℕ
      × Result QpackDecoderFeedbackError (Option QpackSectionAcknowledgment)
unfolding advanced_by
acknowledge_field_section s destination stream_id contains_dynamic_references required =
    if contains_dynamic_references
    then advanced_by s (max s.known_received_count required)
        (build_acknowledgment destination stream_id)
    else (s, destination, ok none)

unfoldable pub cancel_stream :
    QpackDecoderState
    → List ℕ
    → ℕ
    → QpackDecoderState × List ℕ × Result QpackDecoderFeedbackError QpackStreamCancellation
cancel_stream s destination stream_id =
    let (d, r) = build_cancellation destination stream_id in (s, d, map_err instruction_build r)

-- `emit_insert_count_increment` once the increment is known.
unfoldable pub emit_increment :
    QpackDecoderState
    → List ℕ
    → ℕ
    → QpackDecoderState
      × List ℕ
      × Result QpackDecoderFeedbackError (Option QpackInsertCountIncrement)
unfolding advanced_by
emit_increment s destination increment = elim (checked_add s.known_received_count increment) [
  | none ↦ (s, destination, err (insert_count_advance_overflow s.known_received_count increment))
  | some advanced ↦ advanced_by s advanced (build_increment destination increment)
]

unfoldable pub emit_insert_count_increment :
    QpackDecoderState
    → List ℕ
    → ℕ
    → QpackDecoderState
      × List ℕ
      × Result QpackDecoderFeedbackError (Option QpackInsertCountIncrement)
unfolding emit_increment
emit_insert_count_increment s destination decoder_insert_count =
    if decoder_insert_count == s.known_received_count
    then (s, destination, ok none)
    else if ltb decoder_insert_count s.known_received_count
    then (s, destination, err (insert_count_regression s.known_received_count decoder_insert_count))
    else emit_increment s destination
        (min (decoder_insert_count - s.known_received_count) integer_max)
