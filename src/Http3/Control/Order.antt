-- ===== src/Http3/Control/Order.antt =====
-- What any history of frames does to the control-stream state of src/http3/stream/control.rs.
use net_wire_rs.Common.{
  ℕ, ◌==◌, if◌then◌else◌, ◌≤◌, bit_and, not, false, Option, none, some, List, [], ◌∷◌, ◌≡◌, refl,
  sym, ◌∙◌, ◌⊎◌, inl, inr, arith, Bool-cases,
}
use net_wire_rs.Common.Result.{Result-cases}
use net_wire_rs.Http3.Frame.{Http3Frame, frame_type}
use net_wire_rs.Http3.Payload.{
  type_settings, type_cancel_push, type_goaway, type_max_push_id, Http3Goaway, Http3MaxPushId,
  cancel_push_from_frame, goaway_from_frame, max_push_id_from_frame,
}
use net_wire_rs.Http3.Control.{
  SettingsReader, State, receive_settings, receive_cancel_push, receive_goaway, accept_goaway,
  receive_max_push_id, accept_max_push_id, receive_settled, receive_given, receive_control, exceeds,
  falls_below, is_client, never_on_control,
}

-- A bound that was set stays, and does not rise.
abbrev pub NotAbove : Option ℕ → Option ℕ → Type 0
NotAbove none after = Unit
NotAbove (some n) none = ⊥
NotAbove (some n) (some m) = m ≤ n

-- A bound that was set stays, and does not fall.
abbrev pub NotBelow : Option ℕ → Option ℕ → Type 0
NotBelow none after = Unit
NotBelow (some n) none = ⊥
NotBelow (some n) (some m) = n ≤ m

within : (o : Option ℕ) (n : ℕ) → exceeds n o ≡ false → NotAbove o (some n)
within none n h = tt
within (some m) n h = ground arith

above : (o : Option ℕ) (n : ℕ) → falls_below n o ≡ false → NotBelow o (some n)
above none n h = tt
above (some m) n h = ground arith

NotAbove-refl : (o : Option ℕ) → NotAbove o o
NotAbove-refl none = tt
NotAbove-refl (some n) = omega arith

NotBelow-refl : (o : Option ℕ) → NotBelow o o
NotBelow-refl none = tt
NotBelow-refl (some n) = omega arith

NotAbove-trans : (a b c : Option ℕ) → NotAbove a b → NotAbove b c → NotAbove a c
NotAbove-trans none b c p q = tt
NotAbove-trans (some a) none c p q = absurd p
NotAbove-trans (some a) (some b) none p q = absurd q
NotAbove-trans (some a) (some b) (some c) p q = omega arith

NotBelow-trans : (a b c : Option ℕ) → NotBelow a b → NotBelow b c → NotBelow a c
NotBelow-trans none b c p q = tt
NotBelow-trans (some a) none c p q = absurd p
NotBelow-trans (some a) (some b) none p q = absurd q
NotBelow-trans (some a) (some b) (some c) p q = omega arith

module _ (R : SettingsReader) where
  -- The role stays; known settings stay; the GOAWAY identifier does not rise, and the maximum
  -- push id does not fall.
  pub record Advances (s t : State R) : Type 0 where
    pub role : t.local_role ≡ s.local_role
    pub settings_kept : (s.settings ≡ none) ⊎ (t.settings ≡ s.settings)
    pub goaway_falls : NotAbove s.last_goaway_identifier t.last_goaway_identifier
    pub push_rises : NotBelow s.maximum_push_id t.maximum_push_id

  stays : (s : State R) → Advances s s
  stays s = record {
    role = refl;
    settings_kept = inr refl;
    goaway_falls = NotAbove-refl s.last_goaway_identifier;
    push_rises = NotBelow-refl s.maximum_push_id;
  }

  accept_goaway-Advances :
      (s : State R) (g : Http3Goaway) (i : ℕ) → Advances s (accept_goaway R s g i).0
  unfolding accept_goaway
  accept_goaway-Advances s g i =
      elim (Bool-cases (if is_client s.local_role then not (bit_and i 0x03 == 0) else false)) [
        | inl bad ↦ rw bad (stays s)
        | inr fine ↦ elim (Bool-cases (exceeds i s.last_goaway_identifier)) [
          | inl up ↦ rw (fine, up) (stays s)
          | inr down ↦
              rw (fine, down)
                (record {
                  role = refl;
                  settings_kept = inr refl;
                  goaway_falls = within s.last_goaway_identifier i down;
                  push_rises = NotBelow-refl s.maximum_push_id;
                })
        ]
      ]

  receive_goaway-Advances : (s : State R) (f : Http3Frame) → Advances s (receive_goaway R s f).0
  unfolding receive_goaway
  receive_goaway-Advances s f = elim (Result-cases (goaway_from_frame f)) [
    | inl (g, e) ↦ rw (e, receive_goaway) (accept_goaway-Advances s g g.identifier.value)
    | inr (x, e) ↦ rw (e, receive_goaway) (stays s)
  ]

  accept_max_push_id-Advances :
      (s : State R) (m : Http3MaxPushId) (n : ℕ) → Advances s (accept_max_push_id R s m n).0
  unfolding accept_max_push_id
  accept_max_push_id-Advances s m n = elim (Bool-cases (falls_below n s.maximum_push_id)) [
    | inl down ↦ rw down (stays s)
    | inr up ↦ rw up (record {
      role = refl;
      settings_kept = inr refl;
      goaway_falls = NotAbove-refl s.last_goaway_identifier;
      push_rises = above s.maximum_push_id n up;
    })
  ]

  receive_max_push_id-Advances :
      (s : State R) (f : Http3Frame) → Advances s (receive_max_push_id R s f).0
  unfolding receive_max_push_id
  receive_max_push_id-Advances s f = elim (Bool-cases (is_client s.local_role)) [
    | inl c ↦ rw c (stays s)
    | inr c ↦ elim (Result-cases (max_push_id_from_frame f)) [
      | inl (m, e) ↦ rw (c, e) (accept_max_push_id-Advances s m m.push_id.value)
      | inr (x, e) ↦ rw (c, e) (stays s)
    ]
  ]

  receive_cancel_push-state : (s : State R) (f : Http3Frame) → (receive_cancel_push R s f).0 ≡ s
  unfolding receive_cancel_push
  receive_cancel_push-state s f = elim (Bool-cases (is_client s.local_role)) [
    | inl c ↦ rw c refl
    | inr c ↦ elim (Result-cases (cancel_push_from_frame f)) [
      | inl (m, e) ↦ rw (c, e) refl
      | inr (x, e) ↦ rw (c, e) refl
    ]
  ]

  receive_settled-Advances : (s : State R) (f : Http3Frame) → Advances s (receive_settled R s f).0
  unfolding receive_settled
  receive_settled-Advances s f =
      let t = frame_type f in
      elim (Bool-cases (never_on_control t)) [
        | inl n ↦ rw n (stays s)
        | inr n ↦ elim (Bool-cases (t == type_cancel_push)) [
          | inl c ↦ rw (n, c, receive_cancel_push-state s f) (stays s)
          | inr c ↦ elim (Bool-cases (t == type_goaway)) [
            | inl g ↦ rw (n, c, g) (receive_goaway-Advances s f)
            | inr g ↦ elim (Bool-cases (t == type_max_push_id)) [
              | inl m ↦ rw (n, c, g, m) (receive_max_push_id-Advances s f)
              | inr m ↦ rw (n, c, g, m) (stays s)
            ]
          ]
        ]
      ]

  receive_settings-Advances :
      (s : State R) (f : Http3Frame) → s.settings ≡ none → Advances s (receive_settings R s f).0
  unfolding receive_settings
  receive_settings-Advances s f first = elim (Result-cases (R.from_frame f)) [
    | inr (x, e) ↦ rw (e, receive_settings) (stays s)
    | inl (v, e) ↦ elim (Result-cases (R.validate_semantics v)) [
      | inr (x, q) ↦ rw (e, q, receive_settings) (stays s)
      | inl (p, q) ↦
          rw (e, q, receive_settings)
            (record {
              role = refl;
              settings_kept = inl first;
              goaway_falls = NotAbove-refl s.last_goaway_identifier;
              push_rises = NotBelow-refl s.maximum_push_id;
            })
    ]
  ]

  receive_given-Advances :
      (o : Option R.Http3PeerSettings) (s : State R) (f : Http3Frame)
      → s.settings ≡ o
      → Advances s (receive_given R o s f).0
  unfolding receive_given
  receive_given-Advances (some p) s f known = receive_settled-Advances s f
  receive_given-Advances none s f first = elim (Bool-cases (frame_type f == type_settings)) [
    | inl e ↦ rw e (receive_settings-Advances s f first)
    | inr e ↦ rw e (stays s)
  ]

  pub receive_control-Advances :
      (s : State R) (f : Http3Frame) → Advances s (receive_control R s f).0
  unfolding receive_control
  receive_control-Advances s f = receive_given-Advances s.settings s f refl

  Advances-trans : (s t u : State R) → Advances s t → Advances t u → Advances s u
  Advances-trans s t u a b = record {
    role = b.role ∙ a.role;
    settings_kept = elim a.settings_kept [
      | inl none_yet ↦ inl none_yet
      | inr same ↦ elim b.settings_kept [
        | inl none_yet ↦ inl (sym same ∙ none_yet)
        | inr same' ↦ inr (same' ∙ same)
      ]
    ];
    goaway_falls = NotAbove-trans _ _ _ a.goaway_falls b.goaway_falls;
    push_rises = NotBelow-trans _ _ _ a.push_rises b.push_rises;
  }

  -- The state after a history of frames, whether they were accepted or refused.
  unfoldable pub run : State R → List Http3Frame → State R
  unfolding receive_control
  run s [] = s
  run s (f ∷ fs) = run (receive_control R s f).0 fs

  -- Over any history of frames the role stays, known settings stay, the GOAWAY identifier that is
  -- remembered never rises and the maximum push id that is remembered never falls.
  pub run-Advances : (s : State R) (fs : List Http3Frame) → Advances s (run s fs)
  unfolding run
  run-Advances s [] = stays s
  run-Advances s (f ∷ fs) =
      Advances-trans s (receive_control R s f).0 (run (receive_control R s f).0 fs)
        (receive_control-Advances s f) (run-Advances (receive_control R s f).0 fs)
