-- ===== src/Qpack/Encoder/Removal.antt =====
-- `remove_section` of src/qpack/state/encoder.rs on stores that hold sections packed.
use net_wire_rs.Common.{
  ℕ, suc, ◌+◌, ◌-◌, List, [], ◌∷◌, ◌++◌, length, drop, get_elem?, some, ◌≡◌, refl, sym, ap, ◌∙◌,
  append_assoc, length-append, length-drop, arith,
}
use net_wire_rs.Common.Result.{checked_sub}
use net_wire_rs.Common.Slices.{
  copy_range, copy_range_down, set_at, set_at-end, fill, fill_after, repeat, length-repeat,
}
use net_wire_rs.Qpack.Encoder.{
  QpackEncoderState, QpackEncoderOutstandingSection, lower_starts_in, remove_stores, remove_section,
  empty_section,
}
use net_wire_rs.Qpack.Encoder.Spec.{Outstanding, Accounting, all_references}
use net_wire_rs.Qpack.Encoder.Represents.{
  Represents, place, placed, length-place, place-append, all_references-append, lower_starts-place,
  lower_starts_in-part, get_elem?-middle, sections_with, references_with, sections_split,
  references_split,
}

module _ (before : List Outstanding) (e : Outstanding) (after : List Outstanding)
    (sp : List QpackEncoderOutstandingSection) (fr : List ℕ) (sl rl : ℕ)
    (hs : sl ≡ length before + suc (length after))
    (hr : rl
      ≡ length (all_references before)
        + (length e.references + length (all_references after))) where
  abbrev k : ℕ
  k = length e.references

  abbrev at : ℕ
  at = length (all_references before)

  abbrev front : List QpackEncoderOutstandingSection
  front = place 0 before

  abbrev back : List QpackEncoderOutstandingSection
  back = place at after

  abbrev moved : List ℕ
  moved =
      all_references before
      ++ (all_references after
          ++ drop (length (all_references after)) (e.references ++ (all_references after ++ fr)))

  moved_eq : copy_range (references_with before e after sp fr) (at + k) rl at ≡ some moved
  moved_eq =
      copy_range_down (all_references before) e.references (all_references after) fr (at + k) rl at
        refl refl (omega arith)

  abbrev lowered : List QpackEncoderOutstandingSection
  lowered = front ++ (placed at e ∷ (back ++ sp))

  lowered_eq :
      lower_starts_in (sections_with before e after sp fr) (length before + 1) sl k ≡ some lowered
  lowered_eq =
      let first = placed at e ∷ [] in
      let size : length (front ++ first) ≡ length before + 1 =
        omega (arith, length-append front first, length-place 0 before) in
      let run =
        lower_starts_in-part k (front ++ first) (place (at + k) after) sp (length before + 1) sl
          {ws = back} size (omega (arith, length-place (at + k) after))
          (lower_starts-place k at after) in
      ap (λ (x : List QpackEncoderOutstandingSection). lower_starts_in x (length before + 1) sl k)
        (sym (append_assoc front first (place (at + k) after ++ sp)))
      ∙ run
      ∙ ap some (append_assoc front first (back ++ sp))

  abbrev left : List QpackEncoderOutstandingSection
  left = drop (length back) (placed at e ∷ (back ++ sp))

  closed_eq :
      copy_range lowered (length before + 1) sl (length before) ≡ some (front ++ (back ++ left))
  closed_eq =
      copy_range_down front (placed at e ∷ []) back sp (length before + 1) sl (length before)
        (omega (arith, length-place 0 before)) (omega (arith, length-place 0 before))
        (omega (arith, length-place at after))

  length-left : length left ≡ suc (length sp)
  length-left =
      omega (arith, length-drop (length back) (placed at e ∷ (back ++ sp)), length-append back sp)

  abbrev size' : ℕ
  size' = length before + length after

  cleared_eq :
      set_at (front ++ (back ++ left)) size' empty_section
      ≡ some ((front ++ back) ++ (empty_section ∷ drop 1 left))
  cleared_eq =
      ap (λ (x : List QpackEncoderOutstandingSection). set_at x size' empty_section)
        (sym (append_assoc front back left))
      ∙ set_at-end (front ++ back) left size' empty_section
          (omega (arith, length-append front back, length-place 0 before, length-place at after))
          (omega (arith, length-left))

  abbrev size'' : ℕ
  size'' = at + length (all_references after)

  abbrev free : List ℕ
  free = drop (length (all_references after)) (e.references ++ (all_references after ++ fr))

  length-free : length free ≡ k + length fr
  length-free = omega (
    arith,
    length-drop (length (all_references after)) (e.references ++ (all_references after ++ fr)),
    length-append e.references (all_references after ++ fr),
    length-append (all_references after) fr,
  )

  abbrev kept : List ℕ
  kept = all_references before ++ all_references after

  filled_eq :
      fill moved size'' (size'' + k) 0
      ≡ some (kept ++ (repeat (size'' + k - size'') 0 ++ drop (size'' + k) (kept ++ free)))
  filled_eq =
      ap (λ (x : List ℕ). fill x size'' (size'' + k) 0)
        (sym (append_assoc (all_references before) (all_references after) free))
      ∙ fill_after kept free size'' (size'' + k) 0
          (omega (arith, length-append (all_references before) (all_references after)))
          (omega arith) (omega (arith, length-free))

  remove_stores-some :
      remove_stores
        (sections_with before e after sp fr)
        (references_with before e after sp fr)
        sl
        rl
        (length before)
      ≡ some (
        (front ++ back) ++ (empty_section ∷ drop 1 left),
        kept ++ (repeat (size'' + k - size'') 0 ++ drop (size'' + k) (kept ++ free)),
        size',
        size'',
      )
  unfolding remove_stores
  remove_stores-some =
      let found : get_elem? (sections_with before e after sp fr) (length before)
          ≡ some (placed at e) =
        ap (get_elem? (sections_with before e after sp fr)) (sym (length-place 0 before))
        ∙ get_elem?-middle front (placed at e) (place (at + k) after ++ sp) in
      let less : checked_sub sl 1 ≡ some size' = ground arith in
      let less' : checked_sub rl k ≡ some size'' = ground arith in
      rw (found, moved_eq, lowered_eq, closed_eq, less, less', cleared_eq, filled_eq)

  length-sections_with :
      length (sections_with before e after sp fr)
      ≡ length ((front ++ back) ++ (empty_section ∷ drop 1 left))
  length-sections_with = omega (
    arith,
    length-append front (placed at e ∷ (place (at + k) after ++ sp)),
    length-append (place (at + k) after) sp,
    length-append (front ++ back) (empty_section ∷ drop 1 left),
    length-append front back,
    length-place (at + k) after,
    length-place at after,
    length-drop 1 left,
    length-left,
  )

  length-references_with :
      length (references_with before e after sp fr)
      ≡ length (kept ++ (repeat (size'' + k - size'') 0 ++ drop (size'' + k) (kept ++ free)))
  length-references_with = omega (
    arith,
    length-append (all_references before) (e.references ++ (all_references after ++ fr)),
    length-append e.references (all_references after ++ fr),
    length-append (all_references after) fr,
    length-append kept (repeat (size'' + k - size'') 0 ++ drop (size'' + k) (kept ++ free)),
    length-append (all_references before) (all_references after),
    length-append (repeat (size'' + k - size'') 0) (drop (size'' + k) (kept ++ free)),
    length-repeat {A = ℕ} (size'' + k - size'') 0,
    length-drop (size'' + k) (kept ++ free),
    length-append kept free,
    length-free,
  )

-- On a state that represents an accounting, `remove_section` panics nowhere and represents the
-- accounting without that section.
pub remove_section-Represents :
    (s : QpackEncoderState) (a : Accounting) (before : List Outstanding) (e : Outstanding)
    (after : List Outstanding)
    → Represents s a
    → a.outstanding ≡ before ++ (e ∷ after)
    → (s' : QpackEncoderState) × (remove_section s (length before) ≡ some s')
      × Represents s' (record a { outstanding = before ++ after })
unfolding remove_section
remove_section-Represents s a before e after h o =
    let sp = h.spare_sections in
    let fr = h.spare_references in
    let k = length e.references in
    let at = length (all_references before) in
    let e1 : s.sections ≡ sections_with before e after sp fr =
      h.sections
      ∙ ap (λ (x : List Outstanding). place 0 x ++ sp) o
      ∙ sections_split before e after sp fr in
    let e2 : s.references ≡ references_with before e after sp fr =
      h.references
      ∙ ap (λ (x : List Outstanding). all_references x ++ fr) o
      ∙ references_split before e after sp fr in
    let hs : s.section_len ≡ length before + suc (length after) =
      h.section_len ∙ ap length o ∙ length-append before (e ∷ after) in
    let counted : length (all_references (before ++ (e ∷ after)))
        ≡ at + (k + length (all_references after)) =
      ap length (all_references-append before (e ∷ after))
      ∙ length-append (all_references before) (all_references (e ∷ after))
      ∙ unfold all_references in omega (arith, length-append e.references (all_references after)) in
    let hr : s.reference_len ≡ at + (k + length (all_references after)) =
      h.reference_len ∙ ap (λ (x : List Outstanding). length (all_references x)) o ∙ counted in
    let run =
      ap
        (λ (x : List QpackEncoderOutstandingSection).
          remove_stores x s.references s.section_len s.reference_len (length before))
        e1
      ∙ ap
          (λ (x : List ℕ).
            remove_stores (sections_with before e after sp fr) x s.section_len s.reference_len
              (length before))
          e2
      ∙ remove_stores-some before e after sp fr s.section_len s.reference_len hs hr in
    let same_place : place 0 before ++ place at after ≡ place 0 (before ++ after) =
      sym
        (place-append 0 before after ∙ ap (λ (x : ℕ). place 0 before ++ place x after) zero_add) in
    let rest_sections =
      empty_section
      ∷ drop 1 (drop (length (place at after)) (placed at e ∷ (place at after ++ sp))) in
    let size = at + length (all_references after) in
    let kept = all_references before ++ all_references after in
    let free =
      drop (length (all_references after)) (e.references ++ (all_references after ++ fr)) in
    let rest_references : List ℕ = repeat (size + k - size) 0 ++ drop (size + k) (kept ++ free) in
    let s' : QpackEncoderState = record s {
      sections = (place 0 before ++ place at after) ++ rest_sections;
      references = kept ++ rest_references;
      section_len = length before + length after;
      reference_len = size;
    } in
    (
      s',
      rw run,
      record {
        spare_sections = rest_sections;
        spare_references = rest_references;
        sections = ap (λ (x : List QpackEncoderOutstandingSection). x ++ rest_sections) same_place;
        references =
            ap (λ (x : List ℕ). x ++ rest_references) (sym (all_references-append before after));
        section_len = sym (length-append before after);
        reference_len = sym (
            ap length (all_references-append before after)
            ∙ length-append (all_references before) (all_references after));
        known = h.known;
        most = h.most;
        section_room =
            sym (length-sections_with before e after sp fr s.section_len s.reference_len hs hr)
            ∙ ap length (sym e1)
            ∙ h.section_room;
        reference_room =
            sym (length-references_with before e after sp fr s.section_len s.reference_len hs hr)
            ∙ ap length (sym e2)
            ∙ h.reference_room;
      },
    )
  where
    zero_add : {n : ℕ} → 0 + n ≡ n
    zero_add = omega arith
