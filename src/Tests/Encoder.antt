-- ===== src/Tests/Encoder.antt =====
-- src/qpack/state/encoder.rs and src/qpack/state/decoder.rs on two sections and three references.
use net_wire_rs.Common.{
  ℕ, ◌-◌, ◌≤◌, ◌<◌, min, List, [], ◌∷◌, ◌++◌, All, length, drop, some, true, ◌≡◌, refl, ◌⊎◌, inl,
  arith,
}
use net_wire_rs.Common.Result.{Result, ok, err}
use net_wire_rs.Common.Slices.{set_at}
use net_wire_rs.Packed.{copy_from_slice}
use net_wire_rs.Qpack.Integer.{integer_max, write_canonical_prevalidated, canonical_mask}
use net_wire_rs.Tests.Qpack.{two, next, two-IsWf}
use net_wire_rs.Qpack.Table.{
  get_absolute, insert, entry_size, insert_sized, plan_eviction, commit_insert, write_entry,
}
use net_wire_rs.Qpack.Table.Index.{IsActive}
use net_wire_rs.Qpack.Instruction.{
  QpackDecoderInstruction, QpackInsertCountIncrement, QpackSectionAcknowledgment,
  QpackDecoderInstructionsParseError, section_acknowledgment,
}
use net_wire_rs.Qpack.Instruction.Sequence.{Reads, StopsWith}
use net_wire_rs.Qpack.Instruction.RoundTrip.{
  Message, acknowledgment, cancellation, increment, value_of, sent, instructions_of,
}
use net_wire_rs.Qpack.Encoder.{
  QpackEncoderState, QpackEncoderOutstandingSection, QpackEncoderStateError,
  QpackDecoderInstructionApplyError, empty_section, new, register, reserve_registration,
  reserve_storage, check_blocked, blocked_stream_count, count_blocked, any, commit_reserved, commit,
  largest_of, is_evictable, apply, apply_sequence, cannot_parse,
}
use net_wire_rs.Qpack.Encoder.Spec.{
  Outstanding, Accounting, all_references, registered, applied, take_out,
}
use net_wire_rs.Qpack.Encoder.Represents.{Represents, place}
use net_wire_rs.Qpack.Encoder.Refines.{Agrees, apply-Agrees}
use net_wire_rs.Qpack.Encoder.Registration.{register-Agrees}
use net_wire_rs.Qpack.Encoder.History.{
  IsSound, Reached, start, insertions, registration, Reached-IsSound, Reached-total,
}
use net_wire_rs.Qpack.Encoder.Sequence.{applied_all, apply_sequence-Represents, apply_sequence-sent}
use net_wire_rs.Qpack.Encoder.Protection.{evictable_by, is_referenced, insert-keeps_references}
use net_wire_rs.Qpack.Decoder.{
  QpackDecoderState, acknowledge_field_section, emit_insert_count_increment,
}
use net_wire_rs.Qpack.Decoder.Agreement.{
  emit_insert_count_increment-apply_sequence, acknowledge_field_section-apply_sequence,
}

abbrev slots : List QpackEncoderOutstandingSection
slots = empty_section ∷ empty_section ∷ []

abbrev room : List ℕ
room = 0 ∷ 0 ∷ 0 ∷ []

-- A section on stream 4 that refers to the entries 0 and 1.
abbrev section_four : Outstanding
section_four = record { stream_id = 4; required_insert_count = 2; references = 0 ∷ 1 ∷ [] }

abbrev one : QpackEncoderState
one = record {
  sections =
      record { stream_id = 4; required_insert_count = 2; reference_start = 0; reference_len = 2 }
      ∷ empty_section
      ∷ [];
  references = 0 ∷ 1 ∷ 0 ∷ [];
  section_len = 1;
  reference_len = 2;
  known_received_count = 0;
  maximum_blocked_streams = 1;
}

one_registered : register (new slots room 1) 4 2 (0 ∷ 1 ∷ []) 3 ≡ some (one, ok tt)
unfolding new register reserve_registration reserve_storage check_blocked blocked_stream_count
    count_blocked any commit_reserved commit largest_of copy_from_slice set_at
one_registered = refl

one_reached : Reached slots room 1 one 3
one_reached = registration section_four one_registered (insertions 3 (omega arith) start)

Reached-IsSound_example :
    (a : Accounting) × Represents one a × IsSound a 3 × (a.maximum_blocked_streams ≡ 1)
Reached-IsSound_example = Reached-IsSound slots room 1 one 3 one_reached

Reached-total_example :
    ((e : Outstanding)
      → (v : QpackEncoderState × Result QpackEncoderStateError (Unit {0})) × (register one
            e.stream_id e.required_insert_count e.references 3
          ≡ some v))
    × ((i : QpackDecoderInstruction)
        → (v : QpackEncoderState × Result QpackDecoderInstructionApplyError (Unit {0})) × (apply one
              i 3
            ≡ some v))
Reached-total_example = Reached-total slots room 1 one 3 one_reached

abbrev accounting : Accounting
accounting = record {
  outstanding = section_four ∷ [];
  known_received_count = 0;
  maximum_blocked_streams = 1;
  section_capacity = 2;
  reference_capacity = 3;
}

one-Represents : Represents one accounting
unfolding place all_references
one-Represents = record {
  spare_sections = empty_section ∷ [];
  spare_references = 0 ∷ [];
  sections = refl;
  references = refl;
  section_len = refl;
  reference_len = refl;
  known = refl;
  most = refl;
  section_room = refl;
  reference_room = refl;
}

abbrev acknowledge_four : QpackDecoderInstruction
acknowledge_four = section_acknowledgment (record {
  bytes = 0x84 ∷ [];
  stream_id = record { bytes = 0x84 ∷ []; prefix_bits = 7; value = 4; high_bits = 0x80 };
})

apply-Agrees_example :
    Agrees one (applied accounting acknowledge_four 3) (apply one acknowledge_four 3)
apply-Agrees_example = apply-Agrees one accounting acknowledge_four 3 one-Represents

-- A second stream at risk is one too many.
abbrev section_eight : Outstanding
section_eight = record { stream_id = 8; required_insert_count = 3; references = 2 ∷ [] }

register-Agrees_example :
    Agrees one (registered accounting section_eight 3) (register one 8 3 (2 ∷ []) 3)
register-Agrees_example = register-Agrees one accounting section_eight 3 one-Represents

apply_sequence-Represents_example :
    ((is : List QpackDecoderInstruction) × (e : QpackDecoderInstructionsParseError) × StopsWith
        e.error
        (0x84 ∷ 0x03 ∷ [])
        is
        e.offset
      × (apply_sequence one (0x84 ∷ 0x03 ∷ []) 3 ≡ some (one, err (cannot_parse e))))
    ⊎ ((is : List QpackDecoderInstruction) × Reads (0x84 ∷ 0x03 ∷ []) is
        × ((s' : QpackEncoderState) × (apply_sequence one (0x84 ∷ 0x03 ∷ []) 3
              ≡ some (s', (applied_all accounting 0 is 3).1))
            × Represents s' (applied_all accounting 0 is 3).0))
apply_sequence-Represents_example =
    apply_sequence-Represents one accounting (0x84 ∷ 0x03 ∷ []) 3 one-Represents

abbrev messages : List Message
messages = acknowledgment 4 ∷ increment 1 ∷ cancellation 8 ∷ []

messages_legal : All (λ m. value_of m ≤ integer_max) messages
unfolding value_of
messages_legal = (omega arith, (omega arith, (omega arith, tt)))

apply_sequence-sent_example :
    (s' : QpackEncoderState) × (apply_sequence one (sent messages) 3
      ≡ some (s', (applied_all accounting 0 (instructions_of messages) 3).1))
    × Represents s' (applied_all accounting 0 (instructions_of messages) 3).0
apply_sequence-sent_example =
    apply_sequence-sent one accounting messages 3 one-Represents messages_legal

abbrev silent : QpackDecoderState
silent = record { known_received_count = 0 }

abbrev buffer : List ℕ
buffer = 7 ∷ 7 ∷ 7 ∷ []

short_increment :
    length (write_canonical_prevalidated 6 0 (min (3 - 0) integer_max)) ≤ length buffer
unfolding write_canonical_prevalidated canonical_mask
short_increment = omega arith

emit_insert_count_increment-apply_sequence_example :
    let (d', destination', r) = emit_insert_count_increment silent buffer 3 in
    (i : QpackInsertCountIncrement) × (r ≡ ok (some i))
    × (destination' ≡ i.bytes ++ drop (length i.bytes) buffer)
    × (0 < d'.known_received_count)
    × (d'.known_received_count ≤ 3)
    × ((s' : QpackEncoderState) × (apply_sequence one i.bytes 3 ≡ some (s', ok tt))
        × Represents s' (record accounting { known_received_count = d'.known_received_count }))
emit_insert_count_increment-apply_sequence_example =
    emit_insert_count_increment-apply_sequence silent one accounting buffer 3 one-Represents refl 3
      (omega arith) (omega arith) (omega arith) short_increment

short_acknowledgment : length (write_canonical_prevalidated 7 0x80 4) ≤ length buffer
unfolding write_canonical_prevalidated canonical_mask
short_acknowledgment = omega arith

four_found : take_out 4 accounting.outstanding ≡ some (section_four, [])
unfolding take_out
four_found = refl

acknowledge_field_section-apply_sequence_example :
    let (d', destination', r) = acknowledge_field_section silent buffer 4 true 2 in
    (i : QpackSectionAcknowledgment) × (r ≡ ok (some i))
    × (destination' ≡ i.bytes ++ drop (length i.bytes) buffer)
    × ((s' : QpackEncoderState) × (apply_sequence one i.bytes 3 ≡ some (s', ok tt))
        × Represents s' (record accounting {
          outstanding = [];
          known_received_count = d'.known_received_count;
        }))
acknowledge_field_section-apply_sequence_example =
    acknowledge_field_section-apply_sequence silent one accounting buffer 3 one-Represents refl 4
      section_four [] four_found (omega arith) short_acknowledgment

-- Entry 0 is confirmed and unreferenced, entry 1 is referred to.
abbrev holds_one : QpackEncoderState
holds_one = record {
  sections =
      record { stream_id = 4; required_insert_count = 2; reference_start = 0; reference_len = 1 }
      ∷ [];
  references = 1 ∷ [];
  section_len = 1;
  reference_len = 1;
  known_received_count = 1;
  maximum_blocked_streams = 1;
}

abbrev holds_one_accounting : Accounting
holds_one_accounting = record {
  outstanding = record { stream_id = 4; required_insert_count = 2; references = 1 ∷ [] } ∷ [];
  known_received_count = 1;
  maximum_blocked_streams = 1;
  section_capacity = 1;
  reference_capacity = 1;
}

holds_one-Represents : Represents holds_one holds_one_accounting
unfolding place all_references
holds_one-Represents = record {
  spare_sections = [];
  spare_references = [];
  sections = refl;
  references = refl;
  section_len = refl;
  reference_len = refl;
  known = refl;
  most = refl;
  section_room = refl;
  reference_room = refl;
}

inserted_past : insert two (9 ∷ []) (8 ∷ []) (evictable_by holds_one) ≡ some (next, ok 2)
unfolding insert entry_size insert_sized plan_eviction commit_insert write_entry evictable_by
    is_evictable any
inserted_past = refl

one_referenced : is_referenced holds_one_accounting 1 ≡ true
unfolding is_referenced all_references any
one_referenced = refl

insert-keeps_references_example : IsActive next 1 × (get_absolute next 1 ≡ get_absolute two 1)
insert-keeps_references_example =
    insert-keeps_references holds_one holds_one_accounting two next (9 ∷ []) (8 ∷ []) 2
      holds_one-Represents two-IsWf (omega arith) inserted_past 1 (omega arith, omega arith)
      (inl one_referenced)
