-- ===== src/Qpack/Encoder/Refines.antt =====
-- The operations of src/qpack/state/encoder.rs on a state that represents an accounting.
use net_wire_rs.Common.{
  ℕ, zero, suc, ◌+◌, ◌≤◌, max, ltb, ◌==◌, List, [], ◌∷◌, ◌++◌, Option, length, take, get_elem?,
  none, some, ◌≡◌, refl, sym, ap, subst, ◌∙◌, ◌⊎◌, inl, inr, append_assoc, append-nil,
  length-append, arith, Bool-cases, Option-cases, le→ltb, lt→ltb,
}
use net_wire_rs.Common.Result.{Result, ok, err, checked_add}
use net_wire_rs.Common.Slices.{take-length_eq, slice_to}
use net_wire_rs.Qpack.Instruction.{
  QpackDecoderInstruction, section_acknowledgment, stream_cancellation, insert_count_increment,
  QpackInsertCountIncrement, QpackSectionAcknowledgment,
}
use net_wire_rs.Qpack.Encoder.{
  QpackEncoderState, QpackEncoderOutstandingSection, remove_section, cancel_loop, position,
  acknowledge, increment_known, apply,
}
use net_wire_rs.Qpack.Encoder.Spec.{
  Outstanding, Accounting, all_references, take_out, without, applied,
}
use net_wire_rs.Qpack.Encoder.Represents.{
  Represents, place, placed, length-place, get_elem?-middle, sections_split,
}
use net_wire_rs.Qpack.Encoder.Removal.{remove_section-Represents}

-- A call on a state does what its specification says: it returns the same error and the state
-- unchanged, or a state that represents the specification's accounting.
abbrev pub Agrees {κ} :
    {E : Type κ}
    → QpackEncoderState
    → Result E Accounting
    → Option (QpackEncoderState × Result E (Unit {0}))
    → Type κ
Agrees s (ok a) o = (s' : QpackEncoderState) × (o ≡ some (s', ok tt)) × Represents s' a
Agrees s (err e) o = o ≡ some (s, err e)

-- The accounting of a state whose outstanding sections are known.
abbrev pub view : QpackEncoderState → List Outstanding → Accounting
view s es = record {
  outstanding = es;
  known_received_count = s.known_received_count;
  maximum_blocked_streams = s.maximum_blocked_streams;
  section_capacity = length s.sections;
  reference_capacity = length s.references;
}

-- A property of the accounting that a state represents holds if it holds of that view.
pub by_view {κ} :
    {s : QpackEncoderState} {a : Accounting} (P : Accounting → Type κ)
    → Represents s a
    → P (view s a.outstanding)
    → P a
by_view {s} {a} P h p =
    subst (λ (n : ℕ). P (record a { reference_capacity = n })) h.reference_room
      (subst
        (λ (n : ℕ). P (record a { section_capacity = n; reference_capacity = length s.references }))
        h.section_room
        (subst
          (λ (n : ℕ). P (record a {
            maximum_blocked_streams = n;
            section_capacity = length s.sections;
            reference_capacity = length s.references;
          }))
          h.most
          (subst (λ (n : ℕ). P (record (view s a.outstanding) { known_received_count = n })) h.known
            p)))

pub active_sections :
    (s : QpackEncoderState) (a : Accounting)
    → Represents s a
    → slice_to s.sections s.section_len ≡ some (place 0 a.outstanding)
active_sections s a h =
    let size : length (place 0 a.outstanding) ≡ s.section_len =
      length-place 0 a.outstanding ∙ sym h.section_len in
    let room : s.section_len ≤ length s.sections =
      omega (
        arith,
        ap length h.sections,
        length-append (place 0 a.outstanding) h.spare_sections,
        size,
      ) in
    let front : take s.section_len s.sections ≡ place 0 a.outstanding =
      ap (take s.section_len) h.sections
      ∙ take-length_eq s.section_len (place 0 a.outstanding) h.spare_sections size in
    rw (le→ltb (length s.sections) s.section_len room, front)

section_at :
    (s : QpackEncoderState) (a : Accounting) (before : List Outstanding) (e : Outstanding)
    (after : List Outstanding)
    → Represents s a
    → a.outstanding ≡ before ++ (e ∷ after)
    → get_elem? s.sections (length before) ≡ some (placed (length (all_references before)) e)
section_at s a before e after h o =
    let all =
      h.sections
      ∙ ap (λ (x : List Outstanding). place 0 x ++ h.spare_sections) o
      ∙ sections_split before e after h.spare_sections h.spare_references in
    ap (λ (x : List QpackEncoderOutstandingSection). get_elem? x (length before)) all
    ∙ ap (get_elem? _) (sym (length-place 0 before))
    ∙ get_elem?-middle (place 0 before) _ _

cancel_loop_done :
    (fuel : ℕ) (s : QpackEncoderState) (id i : ℕ)
    → s.section_len ≤ i
    → cancel_loop fuel s id i ≡ some s
unfolding cancel_loop
cancel_loop_done zero s id i h = rw (le→ltb i s.section_len h)
cancel_loop_done (suc fuel) s id i h = rw (le→ltb i s.section_len h)

cancel_loop-Represents :
    (fuel : ℕ) (s : QpackEncoderState) (a : Accounting) (id i : ℕ) (kept todo : List Outstanding)
    → Represents s a
    → a.outstanding ≡ kept ++ todo
    → length kept ≡ i
    → length todo ≤ fuel
    → (s' : QpackEncoderState) × (cancel_loop fuel s id i ≡ some s')
      × Represents s' (record a { outstanding = kept ++ without id todo })
unfolding cancel_loop without
cancel_loop-Represents fuel s a id i kept [] h o hi f =
    let size : s.section_len ≡ length kept = h.section_len ∙ ap length (o ∙ append-nil kept) in
    (
      s,
      cancel_loop_done fuel s id i (omega arith),
      subst (λ (x : List Outstanding). Represents s (record a { outstanding = x })) o h,
    )
cancel_loop-Represents zero s a id i kept (e ∷ es) h o hi f = absurd (omega arith)
cancel_loop-Represents (suc fuel) s a id i kept (e ∷ es) h o hi f =
    let size : s.section_len ≡ length kept + suc (length es) =
      h.section_len ∙ ap length o ∙ length-append kept (e ∷ es) in
    let more = lt→ltb i s.section_len (omega arith) in
    let found : get_elem? s.sections i ≡ some (placed (length (all_references kept)) e) =
      rw hi at (section_at s a kept e es h o) in
    elim (Bool-cases (e.stream_id == id)) [
      | inl same ↦
          let (s1, q, h1) = remove_section-Represents s a kept e es h o in
          let q' : remove_section s i ≡ some s1 = rw hi at q in
          let (s2, r, h2) =
            cancel_loop-Represents fuel s1 (record a { outstanding = kept ++ es }) id i kept es h1
              refl hi (omega arith) in
          (s2, rw (more, found, same, q', r), rw same h2)
      | inr other ↦
          let (s2, r, h2) =
            cancel_loop-Represents fuel s a id (i + 1) (kept ++ (e ∷ [])) es h
              (o ∙ sym (append_assoc kept (e ∷ []) es)) (omega (arith, length-append kept (e ∷ [])))
              (omega arith) in
          (
            s2,
            rw (more, found, other, r),
            rw other (rw (append_assoc kept (e ∷ []) (without id es)) at h2),
          )
    ]

-- `position` finds the section that the specification takes out.
pub position_outcome :
    (id start : ℕ) (es : List Outstanding)
    → ((take_out id es ≡ none) × (position id (place start es) ≡ none))
      ⊎ ((before : List Outstanding) × (e : Outstanding) × (after : List Outstanding) × (es
            ≡ before ++ (e ∷ after))
          × (take_out id es ≡ some (e, before ++ after))
          × (position id (place start es) ≡ some (length before)))
unfolding take_out position place
position_outcome id start [] = inl (refl, refl)
position_outcome id start (x ∷ xs) = elim (Bool-cases (x.stream_id == id)) [
  | inl same ↦ inr ([], x, xs, refl, rw same, rw same)
  | inr other ↦ elim (position_outcome id (start + length x.references) xs) [
    | inl (p, q) ↦ inl (rw (other, p), rw (other, q))
    | inr (before, e, after, split, p, q) ↦
        inr (x ∷ before, e, after, ap (◌∷◌ x) split, rw (other, p), rw (other, q))
  ]
]

acknowledge-Agrees :
    (s : QpackEncoderState) (es : List Outstanding) (i : QpackSectionAcknowledgment) (n : ℕ)
    → Represents s (view s es)
    → Agrees s (applied (view s es) (section_acknowledgment i) n) (acknowledge s i.stream_id.value)
unfolding acknowledge applied place
acknowledge-Agrees s es i n h =
    let active = active_sections s (view s es) h in
    elim (position_outcome i.stream_id.value 0 es) [
      | inl (p, q) ↦ rw (p, active, q)
      | inr (before, e, after, split, p, q) ↦
          let known = max s.known_received_count e.required_insert_count in
          let found = section_at s (view s es) before e after h split in
          let s1 : QpackEncoderState = record s { known_received_count = known } in
          let h1 : Represents s1 (view s1 es) = record {
            spare_sections = h.spare_sections;
            spare_references = h.spare_references;
            sections = h.sections;
            references = h.references;
            section_len = h.section_len;
            reference_len = h.reference_len;
            known = refl;
            most = refl;
            section_room = refl;
            reference_room = refl;
          } in
          let (s', r, h') = remove_section-Represents s1 (view s1 es) before e after h1 split in
          rw p (s', rw (active, q, found, r), h')
    ]

increment-Agrees :
    (s : QpackEncoderState) (es : List Outstanding) (i : QpackInsertCountIncrement) (n : ℕ)
    → Represents s (view s es)
    → Agrees s
        (applied (view s es) (insert_count_increment i) n)
        (some (increment_known s i.increment.value n))
unfolding increment_known applied
increment-Agrees s es i n h = elim (Bool-cases (i.increment.value == 0)) [
  | inl zero' ↦ rw zero'
  | inr positive ↦ elim (Option-cases (checked_add s.known_received_count i.increment.value)) [
    | inl over ↦ rw (positive, over)
    | inr (next, q) ↦ elim (Bool-cases (ltb n next)) [
      | inl past ↦ rw (positive, q, past)
      | inr within ↦
          rw (positive, q, within)
            (
              record s { known_received_count = next },
              refl,
              record {
                spare_sections = h.spare_sections;
                spare_references = h.spare_references;
                sections = h.sections;
                references = h.references;
                section_len = h.section_len;
                reference_len = h.reference_len;
                known = refl;
                most = refl;
                section_room = refl;
                reference_room = refl;
              },
            )
    ]
  ]
]

apply_view :
    (s : QpackEncoderState) (es : List Outstanding) (i : QpackDecoderInstruction) (n : ℕ)
    → Represents s (view s es)
    → Agrees s (applied (view s es) i n) (apply s i n)
unfolding apply applied
apply_view s es (section_acknowledgment i) n h = acknowledge-Agrees s es i n h
apply_view s es (stream_cancellation i) n h =
    let (s', q, h') =
      cancel_loop-Represents s.section_len s (view s es) i.stream_id.value 0 [] es h refl refl
        (omega (arith, h.section_len)) in
    (s', rw q, h')
apply_view s es (insert_count_increment i) n h = increment-Agrees s es i n h

-- On a state that represents an accounting, `apply` panics nowhere and does what the specification
-- of the instruction says: the same error and the state unchanged, or a state that represents the
-- accounting behind it.
pub apply-Agrees :
    (s : QpackEncoderState) (a : Accounting) (i : QpackDecoderInstruction) (n : ℕ)
    → Represents s a
    → Agrees s (applied a i n) (apply s i n)
apply-Agrees s a i n h =
    by_view (λ (b : Accounting). Represents s b → Agrees s (applied b i n) (apply s i n)) h
      (apply_view s a.outstanding i n) h
