-- ===== src/Qpack/Decoder/Agreement.antt =====
-- src/qpack/state/decoder.rs and src/qpack/state/encoder.rs together: the bytes that the decoder
-- emits, applied by the encoder.
use net_wire_rs.Common.{
  ℕ, ◌+◌, ◌-◌, ◌≤◌, ◌<◌, min, max, ltb, ◌==◌, true, false, List, [], ◌∷◌, ◌++◌, length, drop, some,
  ◌≡◌, refl, sym, ap, subst, ◌∙◌, inl, inr, arith, append-nil,
}
use net_wire_rs.Common.Result.{ok, checked_add, word}
use net_wire_rs.Qpack.Integer.{integer_max, write_canonical_prevalidated, integer_from_prevalidated}
use net_wire_rs.Qpack.Instruction.{
  QpackSectionAcknowledgment, QpackInsertCountIncrement, as_bytes, build_acknowledgment,
  build_increment, cannot_acknowledge, cannot_increment,
}
use net_wire_rs.Qpack.Instruction.RoundTrip.{
  acknowledgment, increment, value_of, instruction_of, instructions_of, sent, integer_of,
}
use net_wire_rs.Qpack.Instruction.Written.{build_with_cases}
use net_wire_rs.Qpack.Encoder.{QpackEncoderState, apply_sequence}
use net_wire_rs.Qpack.Encoder.Spec.{Outstanding, Accounting, applied, take_out}
use net_wire_rs.Qpack.Encoder.Represents.{Represents}
use net_wire_rs.Qpack.Encoder.Sequence.{applied_all, apply_sequence-sent}
use net_wire_rs.Qpack.Decoder.{
  QpackDecoderState, acknowledge_field_section, emit_increment, emit_insert_count_increment,
}

-- The view of an increment that was written.
abbrev increment_view : ℕ → QpackInsertCountIncrement
increment_view n = record {
  bytes = write_canonical_prevalidated 6 0 n;
  increment = integer_of 6 0 n;
}

abbrev acknowledgment_view : ℕ → QpackSectionAcknowledgment
acknowledgment_view n = record {
  bytes = write_canonical_prevalidated 7 0x80 n;
  stream_id = integer_of 7 0x80 n;
}

built_increment :
    (n : ℕ) (destination : List ℕ)
    → n ≤ integer_max
    → length (increment_view n).bytes ≤ length destination
    → build_increment destination n ≡ (
      (increment_view n).bytes ++ drop (length (increment_view n).bytes) destination,
      ok (increment_view n),
    )
unfolding build_increment
built_increment n destination h room =
    elim (build_with_cases cannot_increment 6 0 n destination (omega arith) (omega arith)
      (omega arith) refl) [
        | inl (l, q) ↦ absurd (omega arith)
        | inr (inl (l, s, q)) ↦ absurd (omega arith)
        | inr (inr (l, s, q)) ↦ rw (build_increment, q)
      ]

built_acknowledgment :
    (n : ℕ) (destination : List ℕ)
    → n ≤ integer_max
    → length (acknowledgment_view n).bytes ≤ length destination
    → build_acknowledgment destination n ≡ (
      (acknowledgment_view n).bytes ++ drop (length (acknowledgment_view n).bytes) destination,
      ok (acknowledgment_view n),
    )
unfolding build_acknowledgment
built_acknowledgment n destination h room =
    elim (build_with_cases cannot_acknowledge 7 0x80 n destination (omega arith) (omega arith)
      (omega arith) refl) [
        | inl (l, q) ↦ absurd (omega arith)
        | inr (inl (l, s, q)) ↦ absurd (omega arith)
        | inr (inr (l, s, q)) ↦ rw (build_acknowledgment, q)
      ]

-- The encoder's account behind one increment.
applied_increment :
    (a : Accounting) (n count : ℕ)
    → 0 < n
    → a.known_received_count + n ≤ count
    → count < word
    → applied_all a 0 (instructions_of (increment n ∷ [])) count
      ≡ (record a { known_received_count = a.known_received_count + n }, ok tt)
unfolding applied_all applied instructions_of instruction_of integer_from_prevalidated
applied_increment a n count some_inserts h u64 = ground arith

sent_one : (n : ℕ) → sent (increment n ∷ []) ≡ (increment_view n).bytes
unfolding sent as_bytes instruction_of
sent_one n = append-nil (increment_view n).bytes

applied_acknowledgment :
    (a : Accounting) (id count : ℕ) (e : Outstanding) (rest : List Outstanding)
    → take_out id a.outstanding ≡ some (e, rest)
    → applied_all a 0 (instructions_of (acknowledgment id ∷ [])) count ≡ (
      record a {
        outstanding = rest;
        known_received_count = max a.known_received_count e.required_insert_count;
      },
      ok tt,
    )
unfolding applied_all applied instructions_of instruction_of integer_from_prevalidated
applied_acknowledgment a id count e rest found = rw (applied_all, applied, found)

sent_acknowledgment : (n : ℕ) → sent (acknowledgment n ∷ []) ≡ (acknowledgment_view n).bytes
unfolding sent as_bytes instruction_of
sent_acknowledgment n = append-nil (acknowledgment_view n).bytes

emitted :
    (d : QpackDecoderState) (destination : List ℕ) (m : ℕ)
    → let n = min (m - d.known_received_count) integer_max in
      d.known_received_count < m
      → m < word
      → length (increment_view n).bytes ≤ length destination
      → emit_insert_count_increment d destination m ≡ (
        record { known_received_count = d.known_received_count + n },
        (increment_view n).bytes ++ drop (length (increment_view n).bytes) destination,
        ok (some (increment_view n)),
      )
unfolding emit_insert_count_increment
emitted d destination m more u64 room =
    let n = min (m - d.known_received_count) integer_max in
    let other : (m == d.known_received_count) ≡ false = ground arith in
    let later : ltb m d.known_received_count ≡ false = ground arith in
    let sum : checked_add d.known_received_count n ≡ some (d.known_received_count + n) =
      ground arith in
    rw (other, later, emit_increment, sum, built_increment n destination (omega arith) room)

module _ (d : QpackDecoderState) (s : QpackEncoderState) (a : Accounting) (destination : List ℕ)
    (count : ℕ) (rep : Represents s a)
    (agreed : d.known_received_count ≡ a.known_received_count) where
  -- If decoder and encoder agree on the Known Received Count and the decoder has received more
  -- insertions, at most as many as the encoder made and a u64, then with room in the destination
  -- the decoder emits an increment, its count rises, to at most the insertions received, and the
  -- encoder that applies the bytes emitted represents the same sections with the count of the
  -- decoder.
  pub emit_insert_count_increment-apply_sequence :
      (m : ℕ)
      → d.known_received_count < m
      → m ≤ count
      → count < word
      → length (increment_view (min (m - d.known_received_count) integer_max)).bytes
        ≤ length destination
      → let (d', destination', r) = emit_insert_count_increment d destination m in
        (i : QpackInsertCountIncrement) × (r ≡ ok (some i))
        × (destination' ≡ i.bytes ++ drop (length i.bytes) destination)
        × (d.known_received_count < d'.known_received_count)
        × (d'.known_received_count ≤ m)
        × ((s' : QpackEncoderState) × (apply_sequence s i.bytes count ≡ some (s', ok tt))
            × Represents s' (record a { known_received_count = d'.known_received_count }))
  emit_insert_count_increment-apply_sequence m more known u64 room =
      let n = min (m - d.known_received_count) integer_max in
      let fits : n ≤ integer_max = omega arith in
      let next = applied_increment a n count (omega arith) (omega arith) u64 in
      let (s', run, rep') =
        apply_sequence-sent s a (increment n ∷ []) count rep (unfold value_of in (fits, tt)) in
      let run' : apply_sequence s (increment_view n).bytes count ≡ some (s', ok tt) =
        ap (λ (x : List ℕ). apply_sequence s x count) (sym (sent_one n))
        ∙ run
        ∙ ap (λ v. some (s', v.1)) next in
      let total : a.known_received_count + n ≡ d.known_received_count + n = omega arith in
      rw (emitted d destination m more (omega arith) room) (
        increment_view n,
        refl,
        refl,
        omega arith,
        omega arith,
        (
          s',
          run',
          subst (λ (k : ℕ). Represents s' (record a { known_received_count = k })) total
              (subst (λ v. Represents s' v.0) next rep'),
        ),
      )

  -- If decoder and encoder agree on the Known Received Count and the decoder acknowledges the
  -- oldest outstanding section of a 62-bit stream identifier with its Required Insert Count, then
  -- with room in the destination the decoder emits an acknowledgment, and the encoder that applies
  -- the bytes emitted represents the other sections and the count of the decoder.
  pub acknowledge_field_section-apply_sequence :
      (id : ℕ) (e : Outstanding) (rest : List Outstanding)
      → take_out id a.outstanding ≡ some (e, rest)
      → id ≤ integer_max
      → length (acknowledgment_view id).bytes ≤ length destination
      → let (d', destination', r) =
          acknowledge_field_section d destination id true e.required_insert_count in
        (i : QpackSectionAcknowledgment) × (r ≡ ok (some i))
        × (destination' ≡ i.bytes ++ drop (length i.bytes) destination)
        × ((s' : QpackEncoderState) × (apply_sequence s i.bytes count ≡ some (s', ok tt))
            × Represents s'
                (record a { outstanding = rest; known_received_count = d'.known_received_count }))
  unfolding acknowledge_field_section
  acknowledge_field_section-apply_sequence id e rest found legal room =
      let next = applied_acknowledgment a id count e rest found in
      let (s', run, rep') =
        apply_sequence-sent s a (acknowledgment id ∷ []) count rep
          (unfold value_of in (legal, tt)) in
      let run' : apply_sequence s (acknowledgment_view id).bytes count ≡ some (s', ok tt) =
        ap (λ (x : List ℕ). apply_sequence s x count) (sym (sent_acknowledgment id))
        ∙ run
        ∙ ap (λ v. some (s', v.1)) next in
      let same : max a.known_received_count e.required_insert_count
          ≡ max d.known_received_count e.required_insert_count =
        omega arith in
      rw (built_acknowledgment id destination legal room) (
        acknowledgment_view id,
        refl,
        refl,
        (
          s',
          run',
          subst
              (λ (k : ℕ). Represents s' (record a { outstanding = rest; known_received_count = k }))
              same (subst (λ v. Represents s' v.0) next rep'),
        ),
      )
