-- ===== src/Http3/Settings/Stream.antt =====
-- src/http3/stream/control.rs over the settings of src/http3/settings.rs.
use net_wire_rs.Common.{
  ℕ, ◌<◌, ◌==◌, none, some, All, List, [], ◌∷◌, ◌++◌, length, ◌≡◌, refl, sym, ap, subst, ◌∙◌, ◌⊎◌,
  inl, inr, Bool-cases,
}
use net_wire_rs.Common.Result.{Result, ok, Result-cases, word}
use net_wire_rs.Http3.Frame.{Http3Frame, frame_type, payload}
use net_wire_rs.Http3.Payload.{type_settings}
use net_wire_rs.Http3.Control.{
  SettingsReader, Http3EndpointRole, State, new_control, receive_control, receive_given,
  receive_settings,
}
use net_wire_rs.Http3.Control.Order.{run, run-Advances}
use net_wire_rs.Http3.Settings.{
  Http3Setting, Http3Settings, Http3PeerSettings, Http3SettingsSemanticError, default_settings,
  settings_from_frame, settings_of, validate_semantics,
}
use net_wire_rs.Http3.Settings.Validation.{
  AreAcceptable, with_values, Validated, accepted, reserved, repeated, validate_semantics-Validated,
}

-- The operations that the control stream takes from the settings.
abbrev pub settings_reader : SettingsReader
settings_reader = record {
  Http3Settings = Http3Settings;
  Http3PeerSettings = Http3PeerSettings;
  Http3SettingsSemanticError = Http3SettingsSemanticError;
  from_frame = settings_from_frame;
  validate_semantics = validate_semantics;
}

-- A SETTINGS frame whose settings are acceptable, and what they make of the defaults.
pub record IsSettingsOf (f : Http3Frame) (p : Http3PeerSettings) : Type 0 where
  pub view : Http3Settings
  pub read : settings_from_frame f ≡ ok view
  pub acceptable : AreAcceptable [] (settings_of view)
  pub values : p ≡ with_values default_settings (settings_of view)

Validated-ok :
    (peer p : Http3PeerSettings) (offset : ℕ) (previous all : List Http3Setting)
    {r : Result Http3SettingsSemanticError Http3PeerSettings}
    → Validated peer offset previous all r
    → r ≡ ok p
    → AreAcceptable previous all × (p ≡ with_values peer all)
Validated-ok peer p offset previous all (accepted a q) e = (a, cc (q, e))
Validated-ok peer p offset previous all (reserved before s after split a h q) e = cc (q, e)
Validated-ok peer p offset previous all (repeated before s after split a h q) e = cc (q, e)

-- A control stream as it began, or with the settings of a frame.
abbrev StartedBy : Http3EndpointRole → Http3Frame → State settings_reader → Type 0
StartedBy role f s =
    (s ≡ new_control settings_reader role)
    ⊎ ((p : Http3PeerSettings) × (s.settings ≡ some p) × IsSettingsOf f p)

settings_received :
    (role : Http3EndpointRole) (f : Http3Frame)
    → length (payload f) < word
    → StartedBy role f (receive_settings settings_reader (new_control settings_reader role) f).0
unfolding receive_settings
settings_received role f h = elim (Result-cases (settings_from_frame f)) [
  | inr (x, e) ↦ rw (receive_settings, e) (inl refl)
  | inl (v, e) ↦ elim (Result-cases (validate_semantics v)) [
    | inr (x, q) ↦ rw (receive_settings, e, q) (inl refl)
    | inl (p, q) ↦
        let (_, valid) = validate_semantics-Validated f v e h in
        let (a, same) = Validated-ok default_settings p 0 [] (settings_of v) valid q in
        rw (receive_settings, e, q)
          (inr (p, refl, record { view = v; read = e; acceptable = a; values = same }))
  ]
]

first_received :
    (role : Http3EndpointRole) (f : Http3Frame)
    → length (payload f) < word
    → StartedBy role f (receive_control settings_reader (new_control settings_reader role) f).0
unfolding receive_control receive_given
first_received role f h = elim (Bool-cases (frame_type f == type_settings)) [
  | inl e ↦ rw e (settings_received role f h)
  | inr e ↦ rw e (inl refl)
]

-- If a control stream has settings after any history of frames whose payload lengths are u64, then
-- they are those of a SETTINGS frame in that history: its identifiers are distinct and none is
-- reserved for HTTP/2, and the settings are the defaults with the values that the frame gives.
pub run-IsSettingsOf :
    (role : Http3EndpointRole) (fs : List Http3Frame) (p : Http3PeerSettings)
    → All (λ f. length (payload f) < word) fs
    → (run settings_reader (new_control settings_reader role) fs).settings ≡ some p
    → (before : List Http3Frame) × (f : Http3Frame) × (after : List Http3Frame) × (fs
        ≡ before ++ (f ∷ after))
      × IsSettingsOf f p
unfolding run
run-IsSettingsOf role [] p h e = cc
run-IsSettingsOf role (f ∷ fs) p (small, h) e = elim (first_received role f small) [
  | inl same ↦
      let again =
        subst (λ (u : State settings_reader). (run settings_reader u fs).settings ≡ some p) same
          e in
      let (before, g, after, split, is) = run-IsSettingsOf role fs p h again in
      (f ∷ before, g, after, ap (◌∷◌ f) split, is)
  | inr (q, known, is) ↦
      let u = (receive_control settings_reader (new_control settings_reader role) f).0 in
      elim (run-Advances settings_reader u fs).settings_kept [
        | inl gone ↦ absurd (let w : some q ≡ none = sym known ∙ gone in cc)
        | inr kept ↦
            let same : q ≡ p = cc (sym known ∙ sym kept ∙ e) in
            ([], f, fs, refl, subst (IsSettingsOf f) same is)
      ]
]
