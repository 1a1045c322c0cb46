-- ===== src/Qpack/Encoder.antt =====
-- src/qpack/state/encoder.rs: the encoder's accounting of outstanding field sections. A call that
-- changes the state returns it beside its result; `none` is a panic of the source. `position` and
-- `any` run over the active sections. The source computes ends of ranges within one store by `+`,
-- which cannot wrap.
pub mod Spec
pub mod Represents
pub mod Removal
pub mod Refines
pub mod Blocking
pub mod Registration
pub mod Sequence
pub mod History
pub mod Limit
pub mod Protection
use net_wire_rs.Common.{
  ℕ, zero, suc, ◌+◌, ◌-◌, max, ltb, leb, ◌==◌, if◌then◌else◌, Bool, true, false, not, ◌&&◌, ◌||◌,
  List, [], ◌∷◌, ◌++◌, map, length, take, drop, get_elem?, Option, none, some,
}
use net_wire_rs.Common.Result.{Result, ok, err, checked_add, checked_sub}
use net_wire_rs.Common.Slices.{slice_to, set_at, copy_range, fill}
use net_wire_rs.Packed.{◌>>=◌, copy_from_slice}
use net_wire_rs.Qpack.Integer.{QpackInteger}
use net_wire_rs.Qpack.Instruction.{
  QpackDecoderInstruction, QpackDecoderInstructionIter, QpackDecoderInstructionsParseError,
  section_acknowledgment, stream_cancellation, insert_count_increment, as_bytes, next, iter,
  parse_instructions,
}

pub record QpackEncoderOutstandingSection : Type 0 where
  pub stream_id : ℕ
  pub required_insert_count : ℕ
  pub reference_start : ℕ
  pub reference_len : ℕ

-- QpackEncoderOutstandingSection::EMPTY
abbrev pub empty_section : QpackEncoderOutstandingSection
empty_section = record {
  stream_id = 0;
  required_insert_count = 0;
  reference_start = 0;
  reference_len = 0;
}

pub data QpackEncoderStateError : Type 0 where
  required_insert_count_mismatch : ℕ → ℕ → QpackEncoderStateError
  required_insert_count_overflow : ℕ → QpackEncoderStateError
  required_insert_count_exceeds_insert_count : ℕ → ℕ → QpackEncoderStateError
  section_storage_exhausted : ℕ → QpackEncoderStateError
  reference_storage_too_short : ℕ → ℕ → QpackEncoderStateError
  blocked_streams_limit_exceeded : ℕ → QpackEncoderStateError

pub data QpackDecoderInstructionApplyError : Type 0 where
  section_acknowledgment_without_outstanding_references : ℕ → QpackDecoderInstructionApplyError
  insert_count_increment_zero : QpackDecoderInstructionApplyError
  insert_count_increment_exceeds_insert_count : ℕ → ℕ → ℕ → QpackDecoderInstructionApplyError

pub record QpackEncoderState : Type 0 where
  pub sections : List QpackEncoderOutstandingSection
  pub references : List ℕ
  pub section_len : ℕ
  pub reference_len : ℕ
  pub known_received_count : ℕ
  pub maximum_blocked_streams : ℕ

-- QpackEncoderState::new
unfoldable pub new : List QpackEncoderOutstandingSection → List ℕ → ℕ → QpackEncoderState
new sections references maximum = record {
  sections = map (λ _. empty_section) sections;
  references = map (λ _. 0) references;
  section_len = 0;
  reference_len = 0;
  known_received_count = 0;
  maximum_blocked_streams = maximum;
}

unfoldable pub any {ℓ} : {A : Type ℓ} → (A → Bool) → List A → Bool
any p [] = false
any p (x ∷ xs) = let rest = any p xs in if p x then true else rest

-- A section of the stream that the peer may not be able to decode yet.
abbrev pub risks : ℕ → ℕ → QpackEncoderOutstandingSection → Bool
risks known stream_id e = ltb known e.required_insert_count && e.stream_id == stream_id

-- The loop of `blocked_stream_count`, with the sections before the current one.
unfoldable pub count_blocked :
    ℕ → List QpackEncoderOutstandingSection → List QpackEncoderOutstandingSection → ℕ
unfolding any
count_blocked known previous [] = 0
count_blocked known previous (e ∷ rest) =
    let others = count_blocked known (previous ++ (e ∷ [])) rest in
    if ltb known e.required_insert_count && not (any (risks known e.stream_id) previous)
    then suc others
    else others

unfoldable pub blocked_stream_count : QpackEncoderState → Option ℕ
unfolding count_blocked
blocked_stream_count s = do
  active ← slice_to s.sections s.section_len
  some (count_blocked s.known_received_count [] active)

-- The loop that finds the largest reference.
unfoldable pub largest_of : ℕ → List ℕ → ℕ
largest_of largest [] = largest
largest_of largest (absolute_index ∷ rest) =
    let next = if ltb largest absolute_index then absolute_index else largest in
    largest_of next rest

pub record QpackEncoderStateRegistration : Type 0 where
  pub stream_id : ℕ
  pub required_insert_count : ℕ
  pub absolute_references : List ℕ
  pub reference_start : ℕ

-- The refusal of a field section that would put one stream too many at risk.
unfoldable pub check_blocked :
    QpackEncoderState → ℕ → ℕ → Option (Result QpackEncoderStateError (Unit {0}))
unfolding any blocked_stream_count
check_blocked s stream_id required_insert_count =
    if ltb s.known_received_count required_insert_count
    then (do
      active ← slice_to s.sections s.section_len
      if any (risks s.known_received_count stream_id) active then some (ok tt) else (do
        count ← blocked_stream_count s
        if leb s.maximum_blocked_streams count
            then some (err (blocked_streams_limit_exceeded s.maximum_blocked_streams))
            else some (ok tt)))
    else some (ok tt)

-- `reserve_registration` behind the tests of the required insert count.
unfoldable pub reserve_storage :
    QpackEncoderState
    → ℕ
    → ℕ
    → List ℕ
    → Option (Result QpackEncoderStateError QpackEncoderStateRegistration)
reserve_storage s stream_id required_insert_count absolute_references =
    if s.section_len == length s.sections
    then some (err (section_storage_exhausted (length s.sections)))
    else (do
      available ← checked_sub (length s.references) s.reference_len
      if ltb available (length absolute_references)
          then some (err (reference_storage_too_short (length absolute_references) available))
          else (do
            answer ← check_blocked s stream_id required_insert_count
            elim answer [
              | ok _ ↦ some (
                  ok (record {
                    stream_id = stream_id;
                    required_insert_count = required_insert_count;
                    absolute_references = absolute_references;
                    reference_start = s.reference_len;
                  }))
              | err e ↦ some (err e)
            ]))

unfoldable pub reserve_registration :
    QpackEncoderState
    → ℕ
    → ℕ
    → List ℕ
    → ℕ
    → Option (Result QpackEncoderStateError QpackEncoderStateRegistration)
reserve_registration s stream_id required_insert_count [] encoder_insert_count =
    if required_insert_count == 0
    then some (
        ok (record {
          stream_id = stream_id;
          required_insert_count = required_insert_count;
          absolute_references = [];
          reference_start = s.reference_len;
        }))
    else some (err (required_insert_count_mismatch required_insert_count 0))
reserve_registration s stream_id required_insert_count (first ∷ others) encoder_insert_count =
    let largest = largest_of first others in
    elim (checked_add largest 1) [
      | none ↦ some (err (required_insert_count_overflow largest))
      | some expected ↦
          if required_insert_count == expected
          then (if ltb encoder_insert_count required_insert_count
              then some (
                  err (
                    required_insert_count_exceeds_insert_count required_insert_count
                      encoder_insert_count))
              else reserve_storage s stream_id required_insert_count (first ∷ others))
          else some (err (required_insert_count_mismatch required_insert_count expected))
    ]

-- QpackEncoderStateRegistration::commit
unfoldable pub commit : QpackEncoderState → QpackEncoderStateRegistration → Option QpackEncoderState
commit s r = if length r.absolute_references == 0 then some s else (do
  let reference_end = r.reference_start + length r.absolute_references
  references ← copy_from_slice s.references r.reference_start reference_end r.absolute_references
  sections ← set_at s.sections s.section_len (record {
    stream_id = r.stream_id;
    required_insert_count = r.required_insert_count;
    reference_start = r.reference_start;
    reference_len = length r.absolute_references;
  })
  some (record s {
    sections = sections;
    references = references;
    section_len = s.section_len + 1;
    reference_len = s.reference_len + length r.absolute_references;
  }))

-- `register` behind `reserve_registration`.
unfoldable pub commit_reserved :
    QpackEncoderState
    → Result QpackEncoderStateError QpackEncoderStateRegistration
    → Option (QpackEncoderState × Result QpackEncoderStateError (Unit {0}))
unfolding commit
commit_reserved s (ok r) = do s' ← commit s r; some (s', ok tt)
commit_reserved s (err e) = some (s, err e)

unfoldable pub register :
    QpackEncoderState
    → ℕ
    → ℕ
    → List ℕ
    → ℕ
    → Option (QpackEncoderState × Result QpackEncoderStateError (Unit {0}))
unfolding reserve_registration commit_reserved
register s stream_id required_insert_count absolute_references encoder_insert_count =
    reserve_registration s stream_id required_insert_count absolute_references encoder_insert_count
    >>= commit_reserved s

-- `for section in ... { section.reference_start -= by }`
unfoldable pub lower_starts :
    ℕ → List QpackEncoderOutstandingSection → Option (List QpackEncoderOutstandingSection)
lower_starts by [] = some []
lower_starts by (e ∷ es) = do
  start ← checked_sub e.reference_start by
  rest ← lower_starts by es
  some (record e { reference_start = start } ∷ rest)

-- The loop over `sections[from..to]`.
unfoldable pub lower_starts_in :
    List QpackEncoderOutstandingSection → ℕ → ℕ → ℕ → Option (List QpackEncoderOutstandingSection)
unfolding lower_starts
lower_starts_in sections from to by = if ltb to from || ltb (length sections) to then none else (do
  lowered ← lower_starts by (take (to - from) (drop from sections))
  some (take from sections ++ (lowered ++ drop to sections)))

-- The two stores and their lengths behind the removal of a section.
unfoldable pub remove_stores :
    List QpackEncoderOutstandingSection
    → List ℕ
    → ℕ
    → ℕ
    → ℕ
    → Option (List QpackEncoderOutstandingSection × List ℕ × ℕ × ℕ)
unfolding lower_starts_in copy_range set_at fill
remove_stores sections references section_len reference_len section_index = do
  removed ← get_elem? sections section_index
  let reference_end = removed.reference_start + removed.reference_len
  moved ← copy_range references reference_end reference_len removed.reference_start
  lowered ← lower_starts_in sections (section_index + 1) section_len removed.reference_len
  closed ← copy_range lowered (section_index + 1) section_len section_index
  section_len' ← checked_sub section_len 1
  reference_len' ← checked_sub reference_len removed.reference_len
  cleared ← set_at closed section_len' empty_section
  filled ← fill moved reference_len' (reference_len' + removed.reference_len) 0
  some (cleared, filled, section_len', reference_len')

unfoldable pub remove_section : QpackEncoderState → ℕ → Option QpackEncoderState
unfolding remove_stores
remove_section s section_index = do
  (sections, references, section_len, reference_len) ←
      remove_stores s.sections s.references s.section_len s.reference_len section_index
  some (record s {
    sections = sections;
    references = references;
    section_len = section_len;
    reference_len = reference_len;
  })

-- `iter().position(|section| section.stream_id == stream_id)`
unfoldable pub position : ℕ → List QpackEncoderOutstandingSection → Option ℕ
position stream_id [] = none
position stream_id (e ∷ es) =
    let rest = (do i ← position stream_id es; some (suc i)) in
    if e.stream_id == stream_id then some 0 else rest

-- The loop of a Stream Cancellation; the state's sections bound its rounds.
unfoldable pub cancel_loop : ℕ → QpackEncoderState → ℕ → ℕ → Option QpackEncoderState
cancel_loop zero s stream_id section_index =
    if ltb section_index s.section_len then none else some s
cancel_loop (suc fuel) s stream_id section_index =
    let round = (do
      e ← get_elem? s.sections section_index
      if e.stream_id == stream_id
          then (do s' ← remove_section s section_index; cancel_loop fuel s' stream_id section_index)
          else cancel_loop fuel s stream_id (section_index + 1)) in
    if ltb section_index s.section_len then round else some s

unfoldable pub acknowledge :
    QpackEncoderState
    → ℕ
    → Option (QpackEncoderState × Result QpackDecoderInstructionApplyError (Unit {0}))
unfolding position
acknowledge s stream_id = do
  active ← slice_to s.sections s.section_len
  elim (position stream_id active) [
    | none ↦ some (s, err (section_acknowledgment_without_outstanding_references stream_id))
    | some section_index ↦ (do
      e ← get_elem? s.sections section_index
      let known = max s.known_received_count e.required_insert_count
      s' ← remove_section (record s { known_received_count = known }) section_index
      some (s', ok tt))
  ]

unfoldable pub increment_known :
    QpackEncoderState
    → ℕ
    → ℕ
    → QpackEncoderState × Result QpackDecoderInstructionApplyError (Unit {0})
increment_known s increment encoder_insert_count =
    let refusal =
      insert_count_increment_exceeds_insert_count s.known_received_count increment
        encoder_insert_count in
    if increment == 0
    then (s, err insert_count_increment_zero)
    else elim (checked_add s.known_received_count increment) [
      | none ↦ (s, err refusal)
      | some next ↦
          if ltb encoder_insert_count next
          then (s, err refusal)
          else (record s { known_received_count = next }, ok tt)
    ]

-- QpackEncoderState::apply
unfoldable pub apply :
    QpackEncoderState
    → QpackDecoderInstruction
    → ℕ
    → Option (QpackEncoderState × Result QpackDecoderInstructionApplyError (Unit {0}))
unfolding acknowledge cancel_loop increment_known
apply s (section_acknowledgment i) encoder_insert_count = acknowledge s i.stream_id.value
apply s (stream_cancellation i) encoder_insert_count = do
  s' ← cancel_loop s.section_len s i.stream_id.value 0
  some (s', ok tt)
apply s (insert_count_increment i) encoder_insert_count =
    some (increment_known s i.increment.value encoder_insert_count)

unfoldable pub is_evictable : QpackEncoderState → ℕ → Option Bool
unfolding any
is_evictable s absolute_index =
    if ltb absolute_index s.known_received_count
    then (do
      held ← slice_to s.references s.reference_len
      some (not (any (λ r. r == absolute_index) held)))
    else some false

pub data QpackDecoderInstructionsApplyError : Type 0 where
  cannot_parse : QpackDecoderInstructionsParseError → QpackDecoderInstructionsApplyError
  cannot_apply : ℕ → QpackDecoderInstructionApplyError → QpackDecoderInstructionsApplyError

-- The loop of `apply_sequence` over the iterator. Every item but the last takes a byte, so the
-- input's length bounds its rounds; `none` is also the end of the fuel.
unfoldable pub apply_items :
    ℕ
    → QpackDecoderInstructionIter
    → ℕ
    → QpackEncoderState
    → ℕ
    → Option (QpackEncoderState × Result QpackDecoderInstructionsApplyError (Unit {0}))
apply_items zero it offset s encoder_insert_count = none
apply_items (suc fuel) it offset s encoder_insert_count =
    let (item, it') = next it in
    let following =
      λ (u : QpackEncoderState) (o : ℕ). apply_items fuel it' o u encoder_insert_count in
    elim item [
      | none ↦ some (s, ok tt)
      | some (err e) ↦ some (s, err (cannot_parse e))
      | some (ok i) ↦ (do
        (s', r) ← apply s i encoder_insert_count
        elim r [
          | ok _ ↦ following s' (offset + length (as_bytes i))
          | err e ↦ some (s', err (cannot_apply offset e))
        ])
    ]

-- QpackEncoderState::apply_sequence
unfoldable pub apply_sequence :
    QpackEncoderState
    → List ℕ
    → ℕ
    → Option (QpackEncoderState × Result QpackDecoderInstructionsApplyError (Unit {0}))
apply_sequence s bytes encoder_insert_count = do
  answer ← parse_instructions bytes
  elim answer [
    | err e ↦ some (s, err (cannot_parse e))
    | ok _ ↦ apply_items (length bytes + 1) (iter bytes) 0 s encoder_insert_count
  ]
