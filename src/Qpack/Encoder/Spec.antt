-- ===== src/Qpack/Encoder/Spec.antt =====
-- What src/qpack/state/encoder.rs accounts for, without offsets and stores: the outstanding field
-- sections, oldest first, each with its references.
use net_wire_rs.Common.{
  ℕ, ◌-◌, max, ltb, leb, ◌==◌, if◌then◌else◌, Bool, not, ◌&&◌, List, [], ◌∷◌, ◌++◌, length, Option,
  none, some,
}
use net_wire_rs.Common.Result.{Result, ok, err, ◌>>=◌, ok_or, checked_add}
use net_wire_rs.Qpack.Instruction.{
  QpackDecoderInstruction, section_acknowledgment, stream_cancellation, insert_count_increment,
}
use net_wire_rs.Qpack.Encoder.{
  QpackEncoderStateError, QpackDecoderInstructionApplyError, required_insert_count_mismatch,
  required_insert_count_overflow, required_insert_count_exceeds_insert_count,
  section_storage_exhausted, reference_storage_too_short, blocked_streams_limit_exceeded,
  section_acknowledgment_without_outstanding_references, insert_count_increment_zero,
  insert_count_increment_exceeds_insert_count, any,
}

pub record Outstanding : Type 0 where
  pub stream_id : ℕ
  pub required_insert_count : ℕ
  pub references : List ℕ

pub record Accounting : Type 0 where
  pub outstanding : List Outstanding
  pub known_received_count : ℕ
  pub maximum_blocked_streams : ℕ
  pub section_capacity : ℕ
  pub reference_capacity : ℕ

unfoldable pub all_references : List Outstanding → List ℕ
all_references [] = []
all_references (e ∷ es) = e.references ++ all_references es

-- The streams at risk of blocking, each once, beside those that were seen.
unfoldable pub at_risk : ℕ → List ℕ → List Outstanding → List ℕ
unfolding any
at_risk known seen [] = []
at_risk known seen (e ∷ es) =
    let without = at_risk known seen es in
    let with_it = e.stream_id ∷ at_risk known (e.stream_id ∷ seen) es in
    if ltb known e.required_insert_count && not (any (λ i. i == e.stream_id) seen)
    then with_it
    else without

-- A stream with an outstanding section that the peer may not be able to decode.
unfoldable pub is_at_risk : ℕ → ℕ → List Outstanding → Bool
unfolding any
is_at_risk known stream_id es =
    any (λ e. ltb known e.required_insert_count && e.stream_id == stream_id) es

unfoldable pub maximum : ℕ → List ℕ → ℕ
maximum m [] = m
maximum m (x ∷ xs) = maximum (max m x) xs

-- The room that a new section needs.
unfoldable pub admit : Accounting → Outstanding → Result QpackEncoderStateError Accounting
admit a e =
    let known = a.known_received_count in
    let available = a.reference_capacity - length (all_references a.outstanding) in
    if length a.outstanding == a.section_capacity
    then err (section_storage_exhausted a.section_capacity)
    else if ltb available (length e.references)
    then err (reference_storage_too_short (length e.references) available)
    else if ltb known e.required_insert_count
        && (not (is_at_risk known e.stream_id a.outstanding)
            && leb a.maximum_blocked_streams (length (at_risk known [] a.outstanding)))
    then err (blocked_streams_limit_exceeded a.maximum_blocked_streams)
    else ok (record a { outstanding = a.outstanding ++ (e ∷ []) })

-- A section without references leaves no trace. Any other is appended if its count is one more
-- than its largest reference, is reached by the encoder's insert count, and there is room.
unfoldable pub registered : Accounting → Outstanding → ℕ → Result QpackEncoderStateError Accounting
registered a e insert_count = elim e.references [
  | [] ↦
      if e.required_insert_count == 0
      then ok a
      else err (required_insert_count_mismatch e.required_insert_count 0)
  | first ∷ others ↦ (do
    expected ←
        ok_or (checked_add (maximum first others) 1)
          (required_insert_count_overflow (maximum first others))
    if e.required_insert_count == expected
        then (if ltb insert_count e.required_insert_count
            then err
                (required_insert_count_exceeds_insert_count e.required_insert_count insert_count)
            else admit a e)
        else err (required_insert_count_mismatch e.required_insert_count expected))
]

-- The oldest section of a stream, and the others.
unfoldable pub take_out : ℕ → List Outstanding → Option (Outstanding × List Outstanding)
take_out stream_id [] = none
take_out stream_id (e ∷ es) =
    let later : Option (Outstanding × List Outstanding) = elim (take_out stream_id es) [
      | none ↦ none
      | some (found, rest) ↦ some (found, e ∷ rest)
    ] in
    if e.stream_id == stream_id then some (e, es) else later

unfoldable pub without : ℕ → List Outstanding → List Outstanding
without stream_id [] = []
without stream_id (e ∷ es) =
    let rest = without stream_id es in if e.stream_id == stream_id then rest else e ∷ rest

-- A decoder's instruction: an acknowledgment takes out its stream's oldest section and confirms
-- that section's count, a cancellation takes out all of its stream's, an increment raises the
-- count as far as the encoder has inserted.
unfoldable pub applied :
    Accounting → QpackDecoderInstruction → ℕ → Result QpackDecoderInstructionApplyError Accounting
unfolding take_out without
applied a (section_acknowledgment i) insert_count =
    elim (take_out i.stream_id.value a.outstanding) [
      | none ↦ err (section_acknowledgment_without_outstanding_references i.stream_id.value)
      | some (e, rest) ↦ ok (record a {
        outstanding = rest;
        known_received_count = max a.known_received_count e.required_insert_count;
      })
    ]
applied a (stream_cancellation i) insert_count =
    ok (record a { outstanding = without i.stream_id.value a.outstanding })
applied a (insert_count_increment i) insert_count =
    let n = i.increment.value in
    let refusal =
      insert_count_increment_exceeds_insert_count a.known_received_count n insert_count in
    if n == 0 then err insert_count_increment_zero else (do
      next ← ok_or (checked_add a.known_received_count n) refusal
      if ltb insert_count next then err refusal else ok (record a { known_received_count = next }))
