-- ===== src/Qpack/Encoder/Represents.antt =====
-- How the packed stores of src/qpack/state/encoder.rs hold the outstanding sections.
use net_wire_rs.Common.{
  ℕ, suc, ◌+◌, ◌-◌, List, [], ◌∷◌, ◌++◌, length, drop, get_elem?, some, ◌≡◌, refl, sym, ap, ◌∙◌,
  append_assoc, length-append, le→ltb, arith,
}
use net_wire_rs.Common.Result.{checked_sub}
use net_wire_rs.Common.Slices.{take-length_eq, drop-length_eq, drop_two}
use net_wire_rs.Qpack.Encoder.{
  QpackEncoderState, QpackEncoderOutstandingSection, lower_starts, lower_starts_in, empty_section,
}
use net_wire_rs.Qpack.Encoder.Spec.{Outstanding, Accounting, all_references}

-- The metadata of one section whose references start at a place.
abbrev pub placed : ℕ → Outstanding → QpackEncoderOutstandingSection
placed start e = record {
  stream_id = e.stream_id;
  required_insert_count = e.required_insert_count;
  reference_start = start;
  reference_len = length e.references;
}

-- The metadata of sections whose references stand packed from `start` on.
unfoldable pub place : ℕ → List Outstanding → List QpackEncoderOutstandingSection
place start [] = []
place start (e ∷ es) = placed start e ∷ place (start + length e.references) es

pub record Represents (s : QpackEncoderState) (a : Accounting) : Type 0 where
  pub spare_sections : List QpackEncoderOutstandingSection
  pub spare_references : List ℕ
  pub sections : s.sections ≡ place 0 a.outstanding ++ spare_sections
  pub references : s.references ≡ all_references a.outstanding ++ spare_references
  pub section_len : s.section_len ≡ length a.outstanding
  pub reference_len : s.reference_len ≡ length (all_references a.outstanding)
  pub known : s.known_received_count ≡ a.known_received_count
  pub most : s.maximum_blocked_streams ≡ a.maximum_blocked_streams
  pub section_room : length s.sections ≡ a.section_capacity
  pub reference_room : length s.references ≡ a.reference_capacity

pub length-place : (start : ℕ) (es : List Outstanding) → length (place start es) ≡ length es
unfolding place
length-place start [] = refl
length-place start (e ∷ es) = ap suc (length-place (start + length e.references) es)

pub all_references-append :
    (es fs : List Outstanding) → all_references (es ++ fs) ≡ all_references es ++ all_references fs
unfolding all_references
all_references-append [] fs = refl
all_references-append (e ∷ es) fs =
    ap (λ (t : List ℕ). e.references ++ t) (all_references-append es fs)
    ∙ sym (append_assoc e.references (all_references es) (all_references fs))

pub place-append :
    (start : ℕ) (es fs : List Outstanding)
    → place start (es ++ fs) ≡ place start es ++ place (start + length (all_references es)) fs
unfolding place all_references
place-append start [] fs = ap (λ (t : ℕ). place t fs) (omega arith)
place-append start (e ∷ es) fs =
    let there : start + length e.references + length (all_references es)
        ≡ start + length (e.references ++ all_references es) =
      omega (arith, length-append e.references (all_references es)) in
    ap (◌∷◌ (placed start e)) (
      place-append (start + length e.references) es fs
      ∙ ap (λ (t : ℕ). place (start + length e.references) es ++ place t fs) there)

pub lower_starts-place :
    (by start : ℕ) (es : List Outstanding)
    → lower_starts by (place (start + by) es) ≡ some (place start es)
unfolding lower_starts place
lower_starts-place by start [] = refl
lower_starts-place by start (e ∷ es) =
    let there : start + by + length e.references ≡ start + length e.references + by = omega arith in
    let here : checked_sub (start + by) by ≡ some start = ground arith in
    rw (here, there, lower_starts-place by (start + length e.references) es) refl

pub lower_starts_in-part :
    (by : ℕ) (xs ys zs : List QpackEncoderOutstandingSection) (from to : ℕ)
    {ws : List QpackEncoderOutstandingSection}
    → length xs ≡ from
    → from + length ys ≡ to
    → lower_starts by ys ≡ some ws
    → lower_starts_in (xs ++ (ys ++ zs)) from to by ≡ some (xs ++ (ws ++ zs))
unfolding lower_starts_in
lower_starts_in-part by xs ys zs from to lo hi e =
    let all = xs ++ (ys ++ zs) in
    let size : length all ≡ length xs + (length ys + length zs) =
      omega (arith, length-append xs (ys ++ zs), length-append ys zs) in
    rw
      (
        le→ltb to from (omega arith),
        le→ltb (length all) to (omega arith),
        take-length_eq from xs (ys ++ zs) lo,
        drop-length_eq from xs (ys ++ zs) lo,
        drop_two to xs ys zs (omega arith),
        take-length_eq (to - from) ys zs (omega arith),
        e,
      )
      refl

pub get_elem?-middle {ℓ} :
    {A : Type ℓ} (xs : List A) (y : A) (ys : List A)
    → get_elem? (xs ++ (y ∷ ys)) (length xs) ≡ some y
get_elem?-middle [] y ys = refl
get_elem?-middle (x ∷ xs) y ys = get_elem?-middle xs y ys

-- The stores with the section `e` between two runs of others.
module _ (before : List Outstanding) (e : Outstanding) (after : List Outstanding)
    (sp : List QpackEncoderOutstandingSection) (fr : List ℕ) where
  abbrev pub t : ℕ
  t = length (all_references before)

  abbrev pub sections_with : List QpackEncoderOutstandingSection
  sections_with = place 0 before ++ (placed t e ∷ (place (t + length e.references) after ++ sp))

  abbrev pub references_with : List ℕ
  references_with = all_references before ++ (e.references ++ (all_references after ++ fr))

  pub sections_split : place 0 (before ++ (e ∷ after)) ++ sp ≡ sections_with
  unfolding place
  sections_split =
      let zero_add : 0 + t ≡ t = omega arith in
      ap (λ (x : List QpackEncoderOutstandingSection). x ++ sp)
        (place-append 0 before (e ∷ after)
          ∙ ap (λ (x : ℕ). place 0 before ++ place x (e ∷ after)) zero_add)
      ∙ append_assoc (place 0 before) (placed t e ∷ place (t + length e.references) after) sp

  pub references_split : all_references (before ++ (e ∷ after)) ++ fr ≡ references_with
  unfolding all_references
  references_split =
      ap (λ (x : List ℕ). x ++ fr) (all_references-append before (e ∷ after))
      ∙ append_assoc (all_references before) (e.references ++ all_references after) fr
      ∙ ap (λ (x : List ℕ). all_references before ++ x)
          (append_assoc e.references (all_references after) fr)

  -- What remains behind the sections after the removal.
  abbrev sections_left : List QpackEncoderOutstandingSection
  sections_left =
      empty_section ∷ drop 1 (drop (length (place t after)) (placed t e ∷ (place t after ++ sp)))

  abbrev references_left : List ℕ
  references_left =
      drop (length (all_references after)) (e.references ++ (all_references after ++ fr))
