-- ===== src/Qpack/Encoder/Registration.antt =====
-- `register` of src/qpack/state/encoder.rs on a state that represents an accounting.
use net_wire_rs.Common.{
  ℕ, suc, ◌+◌, ◌-◌, ◌≤◌, ◌<◌, ltb, leb, ◌==◌, ◌&&◌, not, List, [], ◌∷◌, ◌++◌, length, take, drop,
  some, ◌≡◌, refl, sym, ap, ◌∙◌, inl, inr, append_assoc, append-nil, length-append, length-drop,
  arith, Bool-cases, Option-cases, true, false,
}
use net_wire_rs.Common.Result.{checked_add, checked_sub}
use net_wire_rs.Common.Slices.{take-length_eq, set_at, set_at-end}
use net_wire_rs.Packed.{◌>>=◌, copy_from_slice}
use net_wire_rs.Packed.Insert.{copy_from_slice-some}
use net_wire_rs.Qpack.Encoder.{
  QpackEncoderState, QpackEncoderOutstandingSection, QpackEncoderStateRegistration, reserve_storage,
  reserve_registration, commit, commit_reserved, register,
}
use net_wire_rs.Qpack.Encoder.Spec.{
  Outstanding, Accounting, all_references, at_risk, is_at_risk, maximum, admit, registered,
}
use net_wire_rs.Qpack.Encoder.Represents.{
  Represents, place, placed, length-place, place-append, all_references-append,
}
use net_wire_rs.Qpack.Encoder.Refines.{Agrees, view, by_view}
use net_wire_rs.Qpack.Encoder.Blocking.{largest_of-maximum, check_blocked-at_risk}

module _ (s : QpackEncoderState) (es : List Outstanding) (h : Represents s (view s es)) where
  stored_sections : length s.sections ≡ length es + length h.spare_sections
  stored_sections =
      omega (
        arith,
        ap length h.sections,
        length-append (place 0 es) h.spare_sections,
        length-place 0 es,
      )

  stored_references : length s.references ≡ length (all_references es) + length h.spare_references
  stored_references =
      omega (arith, ap length h.references, length-append (all_references es) h.spare_references)

  module _ (id c first : ℕ) (others : List ℕ) (free : length es < length s.sections)
      (room : length (all_references es) + suc (length others) ≤ length s.references) where
    abbrev added : Outstanding
    added = record { stream_id = id; required_insert_count = c; references = first ∷ others }

    abbrev reservation : QpackEncoderStateRegistration
    reservation = record {
      stream_id = id;
      required_insert_count = c;
      absolute_references = first ∷ others;
      reference_start = s.reference_len;
    }

    abbrev sections' : List QpackEncoderOutstandingSection
    sections' = place 0 es ++ (placed s.reference_len added ∷ drop 1 h.spare_sections)

    abbrev references' : List ℕ
    references' =
        all_references es
        ++ ((first ∷ others) ++ drop (s.reference_len + suc (length others)) s.references)

    written_references :
        copy_from_slice s.references s.reference_len
          (s.reference_len + suc (length others))
          (first ∷ others)
        ≡ some references'
    written_references =
        let front : take s.reference_len s.references ≡ all_references es =
          ap (take s.reference_len) h.references
          ∙ take-length_eq s.reference_len (all_references es) h.spare_references
              (sym h.reference_len) in
        copy_from_slice-some s.references s.reference_len (s.reference_len + suc (length others))
          (first ∷ others) (omega (arith, h.reference_len)) refl
        ∙ ap
            (λ (x : List ℕ). some (
              x ++ ((first ∷ others) ++ drop (s.reference_len + suc (length others)) s.references)))
            front

    written_section :
        set_at s.sections s.section_len (placed s.reference_len added) ≡ some sections'
    written_section =
        ap
          (λ (x : List QpackEncoderOutstandingSection).
            set_at x s.section_len (placed s.reference_len added))
          h.sections
        ∙ set_at-end (place 0 es) h.spare_sections s.section_len (placed s.reference_len added)
            (omega (arith, length-place 0 es, h.section_len)) (omega (arith, stored_sections))

    commit-Represents :
        (s' : QpackEncoderState) × (commit s reservation ≡ some s')
        × Represents s' (record (view s es) { outstanding = es ++ (added ∷ []) })
    unfolding commit
    commit-Represents =
        let tail = drop (s.reference_len + suc (length others)) s.references in
        let here : 0 + length (all_references es) ≡ s.reference_len =
          omega (arith, h.reference_len) in
        let some_references : (suc (length others) == 0) ≡ false = ground arith in
        let one : all_references (added ∷ []) ≡ first ∷ others =
          unfold all_references in append-nil (first ∷ others) in
        let all : all_references (es ++ (added ∷ [])) ≡ all_references es ++ (first ∷ others) =
          all_references-append es (added ∷ []) ∙ ap (λ (x : List ℕ). all_references es ++ x) one in
        let last : place s.reference_len (added ∷ []) ≡ placed s.reference_len added ∷ [] =
          unfold place in refl in
        let packed : place 0 (es ++ (added ∷ []))
            ≡ place 0 es ++ (placed s.reference_len added ∷ []) =
          place-append 0 es (added ∷ [])
          ∙ ap (λ (x : ℕ). place 0 es ++ place x (added ∷ [])) here
          ∙ ap (λ (x : List QpackEncoderOutstandingSection). place 0 es ++ x) last in
        (
          record s {
            sections = sections';
            references = references';
            section_len = s.section_len + 1;
            reference_len = s.reference_len + suc (length others);
          },
          rw (some_references, written_references, written_section),
          record {
            spare_sections = drop 1 h.spare_sections;
            spare_references = tail;
            sections = sym (
                ap (λ (x : List QpackEncoderOutstandingSection). x ++ drop 1 h.spare_sections)
                  packed
                ∙ append_assoc (place 0 es) (placed s.reference_len added ∷ [])
                    (drop 1 h.spare_sections));
            references = sym (
                ap (λ (x : List ℕ). x ++ tail) all
                ∙ append_assoc (all_references es) (first ∷ others) tail);
            section_len = omega (arith, h.section_len, length-append es (added ∷ []));
            reference_len = omega (
              arith,
              h.reference_len,
              ap length all,
              length-append (all_references es) (first ∷ others),
            );
            known = refl;
            most = refl;
            section_room = omega (
              arith,
              length-append (place 0 es) (placed s.reference_len added ∷ drop 1 h.spare_sections),
              length-place 0 es,
              length-drop 1 h.spare_sections,
              stored_sections,
            );
            reference_room = omega (
              arith,
              length-append (all_references es) ((first ∷ others) ++ tail),
              length-append (first ∷ others) tail,
              length-drop (s.reference_len + suc (length others)) s.references,
              stored_references,
              h.reference_len,
            );
          },
        )

  admit-Agrees :
      (id c first : ℕ) (others : List ℕ)
      → Agrees s
          (admit
            (view s es)
            (record { stream_id = id; required_insert_count = c; references = first ∷ others }))
          (reserve_storage s id c (first ∷ others) >>= commit_reserved s)
  unfolding admit reserve_storage commit_reserved
  admit-Agrees id c first others =
      let left = length s.references - length (all_references es) in
      let available : checked_sub (length s.references) s.reference_len ≡ some left =
        ground (arith, stored_references, h.reference_len) in
      let known = s.known_received_count in
      let blocked =
        ltb known c
        && (not (is_at_risk known id es)
            && leb s.maximum_blocked_streams (length (at_risk known [] es))) in
      let checked = check_blocked-at_risk s es id c h in
      elim (Bool-cases (length es == length s.sections)) [
        | inl full ↦
            let full' : (s.section_len == length s.sections) ≡ true =
              ground (arith, h.section_len) in
            rw (full, full')
        | inr more ↦
            let more' : (s.section_len == length s.sections) ≡ false =
              ground (arith, h.section_len) in
            elim (Bool-cases (ltb left (suc (length others)))) [
              | inl short ↦ rw (more, more', available, short)
              | inr room ↦ elim (Bool-cases blocked) [
                | inl full ↦ rw (more, more', available, room, checked, full)
                | inr fine ↦
                    let (s', q, h') =
                      commit-Represents id c first others (ground (arith, stored_sections))
                        (ground (arith, stored_references)) in
                    rw (more, more', available, room, checked, fine) (s', rw q, h')
              ]
            ]
      ]

register_view :
    (s : QpackEncoderState) (es : List Outstanding) (id c : ℕ) (references : List ℕ) (n : ℕ)
    → Represents s (view s es)
    → Agrees s
        (registered
          (view s es)
          (record { stream_id = id; required_insert_count = c; references = references })
          n)
        (register s id c references n)
unfolding registered register commit_reserved
register_view s es id c [] n h = elim (Bool-cases (c == 0)) [
  | inl zero' ↦ rw zero' (s, unfold commit in refl, h)
  | inr other ↦ rw other
]
register_view s es id c (first ∷ others) n h =
    let m = maximum first others in
    let same = largest_of-maximum first others in
    elim (Option-cases (checked_add m 1)) [
      | inl over ↦ rw (over, register, reserve_registration, same, over) (rw same)
      | inr (expected, q) ↦ elim (Bool-cases (c == expected)) [
        | inr wrong ↦ rw (q, wrong, register, reserve_registration, same, q, wrong)
        | inl right ↦ elim (Bool-cases (ltb n c)) [
          | inl past ↦ rw (q, right, past, register, reserve_registration, same, q, right, past)
          | inr reached ↦
              rw (q, right, reached, register, reserve_registration, same, q, right, reached)
                (admit-Agrees s es h id c first others)
        ]
      ]
    ]

-- On a state that represents an accounting, `register` panics nowhere and does what the
-- specification of a registration says: the same error and the state unchanged, or a state that
-- represents the accounting with the section appended, or unchanged if the section has no
-- references.
pub register-Agrees :
    (s : QpackEncoderState) (a : Accounting) (e : Outstanding) (n : ℕ)
    → Represents s a
    → Agrees s (registered a e n) (register s e.stream_id e.required_insert_count e.references n)
register-Agrees s a e n h =
    by_view
      (λ (b : Accounting).
        Represents s b
        → Agrees s (registered b e n)
            (register s e.stream_id e.required_insert_count e.references n))
      h (register_view s a.outstanding e.stream_id e.required_insert_count e.references n) h
