-- ===== src/Http3/Control/Accepted.antt =====
-- Which GOAWAY and MAX_PUSH_ID frames the control stream of src/http3/stream/control.rs accepts over
-- a history of frames, and what it remembers of them.
use net_wire_rs.Common.{
  ℕ, ◌==◌, if◌then◌else◌, leb, bit_and, not, ◌||◌, Bool, true, false, Option, none, some, List, [],
  ◌∷◌, map, ◌≡◌, refl, sym, ap, subst, ◌∙◌, inl, inr, arith, Bool-cases,
}
use net_wire_rs.Common.Result.{Result, ok, err, Result-cases}
use net_wire_rs.Http3.Frame.{Http3Frame, frame_type}
use net_wire_rs.Http3.Payload.{
  type_settings, type_cancel_push, type_goaway, type_max_push_id, Http3Goaway, Http3MaxPushId,
  cancel_push_from_frame, goaway_from_frame, max_push_id_from_frame,
}
use net_wire_rs.Http3.Control.{
  SettingsReader, Http3EndpointRole, Http3ControlFrame, Http3ControlStreamError, settings_frame,
  cancel_push, goaway, max_push_id, unknown, missing_settings, unexpected_control_frame,
  control_payload, bad_settings, invalid_goaway_stream_id, increased_goaway_identifier,
  reduced_maximum_push_id, State, Outcome, receive_settings, receive_cancel_push, receive_goaway,
  accept_goaway, receive_max_push_id, accept_max_push_id, receive_settled, receive_given,
  receive_control, exceeds, falls_below, or_zero, is_client, never_on_control,
}
use net_wire_rs.Http3.Control.Order.{Advances, receive_control-Advances, run, run-Advances}

-- What the answer to a frame says of one kind of number: nothing, that it was taken, that it was
-- refused after the given one, or that it is not of the right form.
pub data Verdict : Type 0 where
  unrelated : Verdict
  taken : ℕ → Verdict
  refused_after : ℕ → ℕ → Verdict
  unfit : ℕ → Verdict

-- The numbers of the right form, and whether one may follow another.
pub record Rule : Type 0 where
  pub fits : ℕ → Bool
  pub may_follow : ℕ → ℕ → Bool

-- A client is sent identifiers of its own bidirectional streams; none may rise.
abbrev pub goaway_rule : Http3EndpointRole → Rule
goaway_rule role = record {
  fits = λ n. not (is_client role) || bit_and n 0x03 == 0;
  may_follow = λ previous n. leb n previous;
}

-- Only a server is sent a maximum push id; none may fall.
abbrev pub push_rule : Http3EndpointRole → Rule
push_rule role = record {
  fits = λ n. not (is_client role);
  may_follow = λ previous n. leb previous n;
}

abbrev pub follows_last : Rule → Option ℕ → ℕ → Bool
follows_last rule none n = true
follows_last rule (some previous) n = rule.may_follow previous n

-- The verdicts are those of the rule, where each number that was taken is the one to follow, from
-- what was remembered before to what is remembered behind.
abbrev pub Follows : Rule → Option ℕ → List Verdict → Option ℕ → Type 0
Follows rule before [] after = after ≡ before
Follows rule before (unrelated ∷ vs) after = Follows rule before vs after
Follows rule before (taken n ∷ vs) after =
    (rule.fits n ≡ true) × ((follows_last rule before n ≡ true) × Follows rule (some n) vs after)
Follows rule before (refused_after previous n ∷ vs) after =
    (before ≡ some previous) × ((rule.may_follow previous n ≡ false) × Follows rule before vs after)
Follows rule before (unfit n ∷ vs) after = (rule.fits n ≡ false) × Follows rule before vs after

Follows-cons :
    (rule : Rule) (before middle after : Option ℕ) (v : Verdict) (vs : List Verdict)
    → Follows rule before (v ∷ []) middle
    → Follows rule middle vs after
    → Follows rule before (v ∷ vs) after
Follows-cons rule before middle after unrelated vs e f =
    subst (λ (o : Option ℕ). Follows rule o vs after) e f
Follows-cons rule before middle after (taken n) vs (a, (b, e)) f =
    (a, (b, subst (λ (o : Option ℕ). Follows rule o vs after) e f))
Follows-cons rule before middle after (refused_after p n) vs (a, (b, e)) f =
    (a, (b, subst (λ (o : Option ℕ). Follows rule o vs after) e f))
Follows-cons rule before middle after (unfit n) vs (a, e) f =
    (a, subst (λ (o : Option ℕ). Follows rule o vs after) e f)

goaway_above :
    (role : Http3EndpointRole) (o : Option ℕ) (n : ℕ)
    → exceeds n o ≡ true
    → (o ≡ some (or_zero o)) × ((goaway_rule role).may_follow (or_zero o) n ≡ false)
goaway_above role none n h = cc
goaway_above role (some p) n h = (refl, ground arith)

goaway_follows :
    (role : Http3EndpointRole) (o : Option ℕ) (n : ℕ)
    → exceeds n o ≡ false
    → follows_last (goaway_rule role) o n ≡ true
goaway_follows role none n h = refl
goaway_follows role (some p) n h = ground arith

push_below :
    (role : Http3EndpointRole) (o : Option ℕ) (n : ℕ)
    → falls_below n o ≡ true
    → (o ≡ some (or_zero o)) × ((push_rule role).may_follow (or_zero o) n ≡ false)
push_below role none n h = cc
push_below role (some p) n h = (refl, ground arith)

push_follows :
    (role : Http3EndpointRole) (o : Option ℕ) (n : ℕ)
    → falls_below n o ≡ false
    → follows_last (push_rule role) o n ≡ true
push_follows role none n h = refl
push_follows role (some p) n h = ground arith

-- The test of the code on an identifier, and the rule's.
misplaced-fits :
    (role : Http3EndpointRole) (n : ℕ)
    → (goaway_rule role).fits n ≡ not (if is_client role then not (bit_and n 0x03 == 0) else false)
misplaced-fits role n = ground arith

module _ (R : SettingsReader) where
  abbrev Response : Type 0
  Response = Result (Http3ControlStreamError R) (Http3ControlFrame R)

  abbrev pub goaway_verdict : Response → Verdict
  goaway_verdict (ok (goaway g)) = taken g.identifier.value
  goaway_verdict (ok (settings_frame s p)) = unrelated
  goaway_verdict (ok (cancel_push c)) = unrelated
  goaway_verdict (ok (max_push_id m)) = unrelated
  goaway_verdict (ok (unknown f)) = unrelated
  goaway_verdict (err (increased_goaway_identifier p n)) = refused_after p n
  goaway_verdict (err (invalid_goaway_stream_id n)) = unfit n
  goaway_verdict (err (missing_settings t)) = unrelated
  goaway_verdict (err (unexpected_control_frame t)) = unrelated
  goaway_verdict (err (control_payload t e)) = unrelated
  goaway_verdict (err (bad_settings e)) = unrelated
  goaway_verdict (err (reduced_maximum_push_id p n)) = unrelated

  abbrev pub push_verdict : Response → Verdict
  push_verdict (ok (max_push_id m)) = taken m.push_id.value
  push_verdict (ok (goaway g)) = unrelated
  push_verdict (ok (settings_frame s p)) = unrelated
  push_verdict (ok (cancel_push c)) = unrelated
  push_verdict (ok (unknown f)) = unrelated
  push_verdict (err (reduced_maximum_push_id p n)) = refused_after p n
  push_verdict (err (increased_goaway_identifier p n)) = unrelated
  push_verdict (err (invalid_goaway_stream_id n)) = unrelated
  push_verdict (err (missing_settings t)) = unrelated
  push_verdict (err (unexpected_control_frame t)) = unrelated
  push_verdict (err (control_payload t e)) = unrelated
  push_verdict (err (bad_settings e)) = unrelated

  -- One call, by its answer and the state behind it.
  abbrev Steps : State R → Outcome R → Type 0
  Steps s (t, r) =
      Follows (goaway_rule s.local_role) s.last_goaway_identifier (goaway_verdict r ∷ [])
        t.last_goaway_identifier
      × Follows (push_rule s.local_role) s.maximum_push_id (push_verdict r ∷ []) t.maximum_push_id

  accept_goaway-Steps :
      (s : State R) (g : Http3Goaway) → Steps s (accept_goaway R s g g.identifier.value)
  unfolding accept_goaway
  accept_goaway-Steps s g =
      let n = g.identifier.value in
      let role = s.local_role in
      let fit = misplaced-fits role n in
      elim (Bool-cases (if is_client role then not (bit_and n 0x03 == 0) else false)) [
        | inl bad ↦ rw bad ((fit ∙ ap not bad, refl), refl)
        | inr fine ↦ elim (Bool-cases (exceeds n s.last_goaway_identifier)) [
          | inl up ↦
              let (known, later) = goaway_above role s.last_goaway_identifier n up in
              rw (fine, up) ((known, (later, refl)), refl)
          | inr down ↦
              let next = goaway_follows role s.last_goaway_identifier n down in
              rw (fine, down) ((fit ∙ ap not fine, (next, refl)), refl)
        ]
      ]

  accept_max_push_id-Steps :
      (s : State R) (m : Http3MaxPushId)
      → is_client s.local_role ≡ false
      → Steps s (accept_max_push_id R s m m.push_id.value)
  unfolding accept_max_push_id
  accept_max_push_id-Steps s m h =
      let n = m.push_id.value in
      let role = s.local_role in
      elim (Bool-cases (falls_below n s.maximum_push_id)) [
        | inl down ↦
            let (known, later) = push_below role s.maximum_push_id n down in
            rw down (refl, (known, (later, refl)))
        | inr up ↦ rw up (refl, (ap not h, (push_follows role s.maximum_push_id n up, refl)))
      ]

  receive_max_push_id-Steps : (s : State R) (f : Http3Frame) → Steps s (receive_max_push_id R s f)
  unfolding receive_max_push_id
  receive_max_push_id-Steps s f = elim (Bool-cases (is_client s.local_role)) [
    | inl r ↦ rw r (refl, refl)
    | inr r ↦ elim (Result-cases (max_push_id_from_frame f)) [
      | inr (x, e) ↦ rw (r, e) (refl, refl)
      | inl (v, e) ↦
          let here : receive_max_push_id R s f ≡ accept_max_push_id R s v v.push_id.value =
            rw (receive_max_push_id, r, e) refl in
          subst (Steps s) (sym here) (accept_max_push_id-Steps s v r)
    ]
  ]

  receive_settled-Steps : (s : State R) (f : Http3Frame) → Steps s (receive_settled R s f)
  unfolding receive_settled receive_cancel_push receive_goaway
  receive_settled-Steps s f =
      let t = frame_type f in
      elim (Bool-cases (never_on_control t)) [
        | inl n ↦ rw n (refl, refl)
        | inr n ↦ elim (Bool-cases (t == type_cancel_push)) [
          | inl c ↦ elim (Bool-cases (is_client s.local_role)) [
            | inl r ↦ rw (n, c, r) (refl, refl)
            | inr r ↦ elim (Result-cases (cancel_push_from_frame f)) [
              | inl (v, e) ↦ rw (n, c, r, e) (refl, refl)
              | inr (x, e) ↦ rw (n, c, r, e) (refl, refl)
            ]
          ]
          | inr c ↦ elim (Bool-cases (t == type_goaway)) [
            | inl g ↦ elim (Result-cases (goaway_from_frame f)) [
              | inl (v, e) ↦ rw (n, c, g, receive_goaway, e) (accept_goaway-Steps s v)
              | inr (x, e) ↦ rw (n, c, g, receive_goaway, e) (refl, refl)
            ]
            | inr g ↦ elim (Bool-cases (t == type_max_push_id)) [
              | inl m ↦ rw (n, c, g, m) (receive_max_push_id-Steps s f)
              | inr m ↦ rw (n, c, g, m) (refl, refl)
            ]
          ]
        ]
      ]

  receive_settings-Steps : (s : State R) (f : Http3Frame) → Steps s (receive_settings R s f)
  unfolding receive_settings
  receive_settings-Steps s f = elim (Result-cases (R.from_frame f)) [
    | inr (x, e) ↦ rw (e, receive_settings) (refl, refl)
    | inl (v, e) ↦ elim (Result-cases (R.validate_semantics v)) [
      | inr (x, q) ↦ rw (e, q, receive_settings) (refl, refl)
      | inl (p, q) ↦ rw (e, q, receive_settings) (refl, refl)
    ]
  ]

  receive_given-Steps :
      (o : Option R.Http3PeerSettings) (s : State R) (f : Http3Frame)
      → Steps s (receive_given R o s f)
  unfolding receive_given
  receive_given-Steps (some p) s f = receive_settled-Steps s f
  receive_given-Steps none s f = elim (Bool-cases (frame_type f == type_settings)) [
    | inl e ↦ rw e (receive_settings-Steps s f)
    | inr e ↦ rw e (refl, refl)
  ]

  -- The answers to a history of frames.
  unfoldable pub responses : State R → List Http3Frame → List Response
  responses s [] = []
  responses s (f ∷ fs) = (receive_control R s f).1 ∷ responses (receive_control R s f).0 fs

  responses-Follow :
      (s : State R) (fs : List Http3Frame)
      → Follows
          (goaway_rule s.local_role)
          s.last_goaway_identifier
          (map goaway_verdict (responses s fs))
          (run R s fs).last_goaway_identifier
        × Follows
            (push_rule s.local_role)
            s.maximum_push_id
            (map push_verdict (responses s fs))
            (run R s fs).maximum_push_id
  unfolding run responses receive_control
  responses-Follow s [] = (refl, refl)
  responses-Follow s (f ∷ fs) =
      let t = (receive_control R s f).0 in
      let r = (receive_control R s f).1 in
      let vs = responses t fs in
      let (goaway_step, push_step) = receive_given-Steps s.settings s f in
      let (goaways, pushes) = responses-Follow t fs in
      let same = (receive_control-Advances R s f).role in
      (
        Follows-cons (goaway_rule s.local_role) s.last_goaway_identifier t.last_goaway_identifier
            (run R t fs).last_goaway_identifier (goaway_verdict r) (map goaway_verdict vs)
            goaway_step
            (subst
              (λ (role : Http3EndpointRole).
                Follows (goaway_rule role) t.last_goaway_identifier (map goaway_verdict vs)
                  (run R t fs).last_goaway_identifier)
              same goaways),
        Follows-cons (push_rule s.local_role) s.maximum_push_id t.maximum_push_id
            (run R t fs).maximum_push_id (push_verdict r) (map push_verdict vs) push_step
            (subst
              (λ (role : Http3EndpointRole).
                Follows (push_rule role) t.maximum_push_id (map push_verdict vs)
                  (run R t fs).maximum_push_id)
              same pushes),
      )

  -- Over any history of frames on a control stream the role stays, known settings stay, an
  -- accepted GOAWAY identifier never rises and an accepted maximum push id never falls. In detail:
  -- the answers accept a GOAWAY identifier only if it is of the form that the role is sent and not
  -- above the last one accepted, refuse one as increased only if it is above that one and as no
  -- stream identifier only if it is not of that form, and the state behind the history remembers
  -- the last one accepted; likewise a maximum push id is accepted only by a server and not below
  -- the last one accepted, refused as reduced only if it is below that one, and the last one
  -- accepted is remembered.
  pub run-Follows :
      (s : State R) (fs : List Http3Frame)
      → Advances R s (run R s fs)
        × Follows
            (goaway_rule s.local_role)
            s.last_goaway_identifier
            (map goaway_verdict (responses s fs))
            (run R s fs).last_goaway_identifier
        × Follows
            (push_rule s.local_role)
            s.maximum_push_id
            (map push_verdict (responses s fs))
            (run R s fs).maximum_push_id
  run-Follows s fs =
      let (goaways, pushes) = responses-Follow s fs in (run-Advances R s fs, goaways, pushes)
