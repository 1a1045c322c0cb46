-- ===== src/Qpack/Encoder/History.antt =====
-- Any history of calls of src/qpack/state/encoder.rs.
use net_wire_rs.Common.{
  ℕ, ◌≤◌, max, ltb, leb, ◌==◌, ◌&&◌, not, true, false, List, [], ◌∷◌, ◌++◌, All, Option, some, map,
  length, ◌≡◌, refl, sym, ap, subst, ◌∙◌, ◌⊎◌, inl, inr, arith, Bool-cases, Option-cases, leb→lt,
  length-map,
}
use net_wire_rs.Common.Result.{Result, ok, err, checked_add}
use net_wire_rs.Qpack.Instruction.{
  QpackDecoderInstruction, section_acknowledgment, stream_cancellation, insert_count_increment,
}
use net_wire_rs.Qpack.Encoder.{
  QpackEncoderState, QpackEncoderOutstandingSection, QpackEncoderStateError,
  QpackDecoderInstructionApplyError, empty_section, any, new, register, apply,
}
use net_wire_rs.Qpack.Encoder.Spec.{
  Outstanding, Accounting, all_references, at_risk, is_at_risk, maximum, admit, registered,
  take_out, without, applied,
}
use net_wire_rs.Qpack.Encoder.Represents.{Represents, place}
use net_wire_rs.Qpack.Encoder.Refines.{Agrees, position_outcome, apply-Agrees}
use net_wire_rs.Qpack.Encoder.Registration.{register-Agrees}
use net_wire_rs.Qpack.Encoder.Limit.{
  IsWithinLimit, IsWithinLimit-fewer, IsWithinLimit-new, is_at_risk-appended, is_at_risk-known,
  is_at_risk-taken_out, is_at_risk-without,
}

-- The accounting of an encoder that has made `n` insertions.
pub record IsSound (a : Accounting) (n : ℕ) : Type 0 where
  pub limit : IsWithinLimit a
  pub received : a.known_received_count ≤ n
  pub counts : All (λ e. e.required_insert_count ≤ n) a.outstanding

All-append {ℓ κ} :
    {A : Type ℓ} (P : A → Type κ) (xs ys : List A) → All P xs → All P ys → All P (xs ++ ys)
All-append P [] ys p q = q
All-append P (x ∷ xs) ys (h, p) q = (h, All-append P xs ys p q)

All-parts {ℓ κ} :
    {A : Type ℓ} (P : A → Type κ) (xs : List A) (y : A) (ys : List A)
    → All P (xs ++ (y ∷ ys))
    → P y × All P (xs ++ ys)
All-parts P [] y ys (h, p) = (h, p)
All-parts P (x ∷ xs) y ys (h, p) = let (here, rest) = All-parts P xs y ys p in (here, (h, rest))

All-without :
    (P : Outstanding → Type 0) (id : ℕ) (es : List Outstanding) → All P es → All P (without id es)
unfolding without
All-without P id [] p = tt
All-without P id (e ∷ es) (h, p) = elim (Bool-cases (e.stream_id == id)) [
  | inl same ↦ rw same (All-without P id es p)
  | inr other ↦ rw other (h, All-without P id es p)
]

-- What an admission leaves, and that it found room.
admitted :
    (a a' : Accounting) (e : Outstanding)
    → admit a e ≡ ok a'
    → (record a { outstanding = a.outstanding ++ (e ∷ []) } ≡ a')
      × ((ltb a.known_received_count e.required_insert_count
            && (not (is_at_risk a.known_received_count e.stream_id a.outstanding)
                && leb a.maximum_blocked_streams
                    (length (at_risk a.known_received_count [] a.outstanding))))
          ≡ false)
unfolding admit
admitted a a' e q = ground (arith)

admit-IsWithinLimit :
    (a a' : Accounting) (e : Outstanding) → IsWithinLimit a → admit a e ≡ ok a' → IsWithinLimit a'
admit-IsWithinLimit a a' e w q =
    let (same, room) = admitted a a' e q in
    let after = record a { outstanding = a.outstanding ++ (e ∷ []) } in
    let known = a.known_received_count in
    subst IsWithinLimit same (elim (Bool-cases (ltb known e.required_insert_count)) [
      | inr safe ↦
          IsWithinLimit-fewer a after refl
            (λ id. is_at_risk-appended known id a.outstanding e (inl safe)) w
      | inl risky ↦ elim (Bool-cases (is_at_risk known e.stream_id a.outstanding)) [
        | inl old ↦
            IsWithinLimit-fewer a after refl
              (λ id. is_at_risk-appended known id a.outstanding e (inr old)) w
        | inr new' ↦ IsWithinLimit-new a e (leb→lt _ _ (rw (risky, new') at room))
      ]
    ])

-- A registration leaves the accounting as it is, or admits a section that the encoder's insert
-- count reaches.
registered_cases :
    (a a' : Accounting) (id c : ℕ) (references : List ℕ) (n : ℕ)
    → registered a (record { stream_id = id; required_insert_count = c; references = references }) n
      ≡ ok a'
    → (a ≡ a')
      ⊎ ((c ≤ n)
          × (admit a (record { stream_id = id; required_insert_count = c; references = references })
              ≡ ok a'))
unfolding registered
registered_cases a a' id c [] n q = ground arith
registered_cases a a' id c (first ∷ others) n q =
    elim (Option-cases (checked_add (maximum first others) 1)) [
      | inl over ↦ ground arith
      | inr (expected, known) ↦ ground arith
    ]

registered-IsSound :
    (a a' : Accounting) (e : Outstanding) (n : ℕ)
    → IsSound a n
    → registered a e n ≡ ok a'
    → IsSound a' n
registered-IsSound a a' e n w q =
    elim (registered_cases a a' e.stream_id e.required_insert_count e.references n q) [
      | inl same ↦ subst (λ (b : Accounting). IsSound b n) same w
      | inr (reached, q') ↦
          let (same, _) = admitted a a' e q' in
          record {
            limit = admit-IsWithinLimit a a' e w.limit q';
            received = subst (λ (b : Accounting). b.known_received_count ≤ n) same w.received;
            counts =
                subst (λ (b : Accounting). All (λ f. f.required_insert_count ≤ n) b.outstanding)
                  same
                  (All-append (λ f. f.required_insert_count ≤ n) a.outstanding (e ∷ []) w.counts
                    (reached, tt));
          }
    ]

-- A later Known Received Count over some of the sections.
IsSound-later :
    (a b : Accounting) (n : ℕ)
    → a.maximum_blocked_streams ≡ b.maximum_blocked_streams
    → ((id : ℕ)
        → is_at_risk b.known_received_count id b.outstanding ≡ true
        → is_at_risk a.known_received_count id a.outstanding ≡ true)
    → b.known_received_count ≤ n
    → All (λ e. e.required_insert_count ≤ n) b.outstanding
    → IsSound a n
    → IsSound b n
IsSound-later a b n most fewer known counts w = record {
  limit = IsWithinLimit-fewer a b most fewer w.limit;
  received = known;
  counts = counts;
}

applied-IsSound :
    (a a' : Accounting) (i : QpackDecoderInstruction) (n : ℕ)
    → IsSound a n
    → applied a i n ≡ ok a'
    → IsSound a' n
unfolding applied
applied-IsSound a a' (section_acknowledgment i) n w q =
    elim (position_outcome i.stream_id.value 0 a.outstanding) [
      | inl (gone, _) ↦ ground arith
      | inr (before, e, after, split, found, _) ↦
          let known = max a.known_received_count e.required_insert_count in
          let b : Accounting = record a {
            outstanding = before ++ after;
            known_received_count = known;
          } in
          let same : b ≡ a' = ground arith in
          let (here, rest) =
            All-parts (λ (f : Outstanding). f.required_insert_count ≤ n) before e after
              (subst (All (λ f. f.required_insert_count ≤ n)) split w.counts) in
          subst (λ (x : Accounting). IsSound x n) same
            (IsSound-later a b n refl
              (λ id r.
                subst (λ (x : List Outstanding). is_at_risk a.known_received_count id x ≡ true)
                  (sym split)
                  (is_at_risk-taken_out a.known_received_count id before e after (
                    is_at_risk-known a.known_received_count known id (before ++ after) (omega arith)
                      r)))
              (omega (arith, w.received)) rest w)
    ]
applied-IsSound a a' (stream_cancellation i) n w q =
    let b : Accounting = record a { outstanding = without i.stream_id.value a.outstanding } in
    let same : b ≡ a' = ground arith in
    subst (λ (x : Accounting). IsSound x n) same
      (IsSound-later a b n refl
        (λ id r. is_at_risk-without a.known_received_count id i.stream_id.value a.outstanding r)
        w.received
        (All-without (λ f. f.required_insert_count ≤ n) i.stream_id.value a.outstanding w.counts) w)
applied-IsSound a a' (insert_count_increment i) n w q =
    elim (Option-cases (checked_add a.known_received_count i.increment.value)) [
      | inl over ↦ ground arith
      | inr (next, sum) ↦
          let b : Accounting = record a { known_received_count = next } in
          let same : (b ≡ a') × (next ≤ n) × (a.known_received_count ≤ next) = ground arith in
          subst (λ (x : Accounting). IsSound x n) same.0
            (IsSound-later a b n refl
              (λ id r. is_at_risk-known a.known_received_count next id a.outstanding same.2 r)
              same.1 w.counts w)
    ]

-- Where calls lead from `new`: the state, and how many insertions the encoder has made.
pub data Reached (sections : List QpackEncoderOutstandingSection) (references : List ℕ) (most : ℕ)
    : QpackEncoderState → ℕ → Type 0 where
  start : Reached sections references most (new sections references most) 0
  insertions :
      {s : QpackEncoderState} {n : ℕ} (n' : ℕ)
      → n ≤ n'
      → Reached sections references most s n
      → Reached sections references most s n'
  registration :
      {s s' : QpackEncoderState} {n : ℕ} {r : Result QpackEncoderStateError (Unit {0})}
      (e : Outstanding)
      → register s e.stream_id e.required_insert_count e.references n ≡ some (s', r)
      → Reached sections references most s n
      → Reached sections references most s' n
  instruction :
      {s s' : QpackEncoderState} {n : ℕ} {r : Result QpackDecoderInstructionApplyError (Unit {0})}
      (i : QpackDecoderInstruction)
      → apply s i n ≡ some (s', r)
      → Reached sections references most s n
      → Reached sections references most s' n

-- The accounting of a new state.
abbrev pub empty_accounting : ℕ → ℕ → ℕ → Accounting
empty_accounting sections references most = record {
  outstanding = [];
  known_received_count = 0;
  maximum_blocked_streams = most;
  section_capacity = sections;
  reference_capacity = references;
}

pub new-Represents :
    (sections : List QpackEncoderOutstandingSection) (references : List ℕ) (most : ℕ)
    → Represents
        (new sections references most)
        (empty_accounting (length sections) (length references) most)
unfolding new
new-Represents sections references most = record {
  spare_sections = map (λ _. empty_section) sections;
  spare_references = map (λ _. 0) references;
  sections = unfold place in refl;
  references = unfold all_references in refl;
  section_len = refl;
  reference_len = unfold all_references in refl;
  known = refl;
  most = refl;
  section_room = length-map (λ _. empty_section) sections;
  reference_room = length-map (λ _. 0) references;
}

-- The state behind a call that agrees with its specification.
Agrees-cases {κ} :
    {E : Type κ} {s s' : QpackEncoderState} {x : Result E (Unit {0})}
    {o : Option (QpackEncoderState × Result E (Unit {0}))} (r : Result E Accounting)
    → Agrees s r o
    → o ≡ some (s', x)
    → ((a : Accounting) × (r ≡ ok a) × Represents s' a) ⊎ (s ≡ s')
Agrees-cases {s'} (ok a) (u, q, h) e =
    let same : u ≡ s' = cc (q, e) in
    inl (a, refl, subst (λ (v : QpackEncoderState). Represents v a) same h)
Agrees-cases (err x) q e = inr (cc (q, e))

Agrees-total {κ} :
    {E : Type κ} (s : QpackEncoderState) {o : Option (QpackEncoderState × Result E (Unit {0}))}
    (r : Result E Accounting)
    → Agrees s r o
    → (v : QpackEncoderState × Result E (Unit {0})) × (o ≡ some v)
Agrees-total s (ok a) (u, q, h) = ((u, ok tt), q)
Agrees-total s (err x) q = ((s, err x), q)

registered_most :
    (a a' : Accounting) (e : Outstanding) (n : ℕ)
    → registered a e n ≡ ok a'
    → a.maximum_blocked_streams ≡ a'.maximum_blocked_streams
registered_most a a' e n q =
    elim (registered_cases a a' e.stream_id e.required_insert_count e.references n q) [
      | inl same ↦ ap (λ (b : Accounting). b.maximum_blocked_streams) same
      | inr (_, q') ↦ ap (λ (b : Accounting). b.maximum_blocked_streams) (admitted a a' e q').0
    ]

applied_most :
    (a a' : Accounting) (i : QpackDecoderInstruction) (n : ℕ)
    → applied a i n ≡ ok a'
    → a.maximum_blocked_streams ≡ a'.maximum_blocked_streams
unfolding applied
applied_most a a' (section_acknowledgment i) n q =
    elim (Option-cases (take_out i.stream_id.value a.outstanding)) [
      | inl gone ↦ ground arith
      | inr ((e, rest), found) ↦ ground arith
    ]
applied_most a a' (stream_cancellation i) n q = ground arith
applied_most a a' (insert_count_increment i) n q =
    elim (Option-cases (checked_add a.known_received_count i.increment.value)) [
      | inl over ↦ ground arith
      | inr (next, sum) ↦ ground arith
    ]

All-later :
    (es : List Outstanding) (n n' : ℕ)
    → n ≤ n'
    → All (λ e. e.required_insert_count ≤ n) es
    → All (λ e. e.required_insert_count ≤ n') es
All-later [] n n' le p = tt
All-later (e ∷ es) n n' le (h, p) = (omega arith, All-later es n n' le p)

nothing_at_risk : (k m most : ℕ) → IsWithinLimit (empty_accounting k m most)
unfolding is_at_risk any
nothing_at_risk k m most [] d h = omega arith
nothing_at_risk k m most (x ∷ xs) d (h, _) = cc

-- After any history of insertions, registrations and decoder instructions from a new encoder
-- state, the state represents an accounting of outstanding sections with the limit on blocked
-- streams that it was made with, in which any distinct streams that each have a section beyond the
-- Known Received Count are at most that limit, and neither that count nor a section's Required
-- Insert Count exceeds the insert count.
pub Reached-IsSound :
    (sections : List QpackEncoderOutstandingSection) (references : List ℕ) (most : ℕ)
    (s : QpackEncoderState) (n : ℕ)
    → Reached sections references most s n
    → (a : Accounting) × Represents s a × IsSound a n × (a.maximum_blocked_streams ≡ most)
Reached-IsSound sections references most _ _ start = (
  empty_accounting (length sections) (length references) most,
  new-Represents sections references most,
  record {
    limit = nothing_at_risk (length sections) (length references) most;
    received = omega arith;
    counts = tt;
  },
  refl,
)
Reached-IsSound sections references most s _ (insertions {n} n' le h) =
    let (a, rep, w, m) = Reached-IsSound sections references most s n h in
    (
      a,
      rep,
      record {
        limit = w.limit;
        received = omega (arith, w.received);
        counts = All-later a.outstanding n n' le w.counts;
      },
      m,
    )
Reached-IsSound sections references most _ n (registration {s} e q h) =
    let (a, rep, w, m) = Reached-IsSound sections references most s n h in
    elim (Agrees-cases (registered a e n) (register-Agrees s a e n rep) q) [
      | inl (a', done, rep') ↦
          (a', rep', registered-IsSound a a' e n w done, sym (registered_most a a' e n done) ∙ m)
      | inr same ↦ (a, subst (λ (v : QpackEncoderState). Represents v a) same rep, w, m)
    ]
Reached-IsSound sections references most _ n (instruction {s} i q h) =
    let (a, rep, w, m) = Reached-IsSound sections references most s n h in
    elim (Agrees-cases (applied a i n) (apply-Agrees s a i n rep) q) [
      | inl (a', done, rep') ↦
          (a', rep', applied-IsSound a a' i n w done, sym (applied_most a a' i n done) ∙ m)
      | inr same ↦ (a, subst (λ (v : QpackEncoderState). Represents v a) same rep, w, m)
    ]

-- In any state that calls lead to from a new encoder state, every registration and every decoder
-- instruction returns without a panic.
pub Reached-total :
    (sections : List QpackEncoderOutstandingSection) (references : List ℕ) (most : ℕ)
    (s : QpackEncoderState) (n : ℕ)
    → Reached sections references most s n
    → ((e : Outstanding)
        → (v : QpackEncoderState × Result QpackEncoderStateError (Unit {0})) × (register s
              e.stream_id e.required_insert_count e.references n
            ≡ some v))
      × ((i : QpackDecoderInstruction)
          → (v : QpackEncoderState × Result QpackDecoderInstructionApplyError (Unit {0})) × (apply s
                i n
              ≡ some v))
Reached-total sections references most s n h =
    let (a, rep, _, _) = Reached-IsSound sections references most s n h in
    (
      λ e. Agrees-total s (registered a e n) (register-Agrees s a e n rep),
      λ i. Agrees-total s (applied a i n) (apply-Agrees s a i n rep),
    )
