-- ===== src/Http3/Control/Started.antt =====
-- What a control stream of src/http3/stream/control.rs refuses, and what it takes first.
use net_wire_rs.Common.{
  ◌==◌, Option, none, some, List, [], ◌∷◌, ◌≡◌, refl, sym, subst, ◌∙◌, ◌⊎◌, inl, inr, arith,
  Bool-cases,
}
use net_wire_rs.Common.Result.{err, Result-cases}
use net_wire_rs.Http3.Frame.{Http3Frame, frame_type}
use net_wire_rs.Http3.Payload.{type_settings}
use net_wire_rs.Http3.Control.{
  SettingsReader, Http3EndpointRole, Http3ControlStreamError, new_control, State, receive_settings,
  receive_cancel_push, receive_goaway, accept_goaway, receive_max_push_id, accept_max_push_id,
  receive_settled, receive_given, receive_control,
}
use net_wire_rs.Http3.Control.Order.{receive_control-Advances, run}

module _ (R : SettingsReader) where
  -- A frame that a control stream refuses leaves its state as it was.
  pub receive_control_unchanged :
      (s s' : State R) (f : Http3Frame) (x : Http3ControlStreamError R)
      → receive_control R s f ≡ (s', err x)
      → s' ≡ s
  receive_control_unchanged s s' f x e = unfold receive_control in given s.settings s s' f x e
    where
      settled :
          (s s' : State R) (f : Http3Frame) (x : Http3ControlStreamError R)
          → receive_settled R s f ≡ (s', err x)
          → s' ≡ s
      settled s s' f x e =
          unfold receive_settled receive_cancel_push receive_goaway accept_goaway
            receive_max_push_id accept_max_push_id in
          ground arith

      given :
          (o : Option R.Http3PeerSettings) (s s' : State R) (f : Http3Frame)
          (x : Http3ControlStreamError R)
          → receive_given R o s f ≡ (s', err x)
          → s' ≡ s
      given none s s' f x e = unfold receive_given receive_settings in ground arith
      given (some p) s s' f x e = unfold receive_given in settled s s' f x e

  settings-start :
      (role : Http3EndpointRole) (f : Http3Frame)
      → let s = (receive_settings R (new_control R role) f).0 in
        (s ≡ new_control R role) ⊎ ((p : R.Http3PeerSettings) × (s.settings ≡ some p))
  unfolding receive_settings
  settings-start role f = elim (Result-cases (R.from_frame f)) [
    | inr (x, e) ↦ rw (e, receive_settings) (inl refl)
    | inl (v, e) ↦ elim (Result-cases (R.validate_semantics v)) [
      | inr (x, q) ↦ rw (e, q, receive_settings) (inl refl)
      | inl (p, q) ↦ rw (e, q, receive_settings) (inr (p, refl))
    ]
  ]

  -- As the stream began, or with its settings.
  abbrev pub IsStarted : Http3EndpointRole → State R → Type 0
  IsStarted role s = (s ≡ new_control R role) ⊎ ((p : R.Http3PeerSettings) × (s.settings ≡ some p))

  first_frame :
      (role : Http3EndpointRole) (f : Http3Frame)
      → IsStarted role (receive_control R (new_control R role) f).0
  unfolding receive_control receive_given
  first_frame role f = elim (Bool-cases (frame_type f == type_settings)) [
    | inl e ↦ rw e (settings-start role f)
    | inr e ↦ rw e (inl refl)
  ]

  next_frame :
      (role : Http3EndpointRole) (s : State R) (f : Http3Frame)
      → IsStarted role s
      → IsStarted role (receive_control R s f).0
  next_frame role s f (inl same) =
      subst (λ u. IsStarted role (receive_control R u f).0) (sym same) (first_frame role f)
  next_frame role s f (inr (p, known)) = elim (receive_control-Advances R s f).settings_kept [
    | inl gone ↦ absurd (let w : some p ≡ none = sym known ∙ gone in cc)
    | inr same ↦ inr (p, same ∙ known)
  ]

  run-IsStarted :
      (role : Http3EndpointRole) (s : State R) (fs : List Http3Frame)
      → IsStarted role s
      → IsStarted role (run R s fs)
  unfolding run
  run-IsStarted role s [] h = h
  run-IsStarted role s (f ∷ fs) h =
      run-IsStarted role (receive_control R s f).0 fs (next_frame role s f h)

  -- After any history of frames a control stream stands as it began, or has its settings.
  pub run-start :
      (role : Http3EndpointRole) (fs : List Http3Frame)
      → IsStarted role (run R (new_control R role) fs)
  run-start role fs = run-IsStarted role (new_control R role) fs (inl refl)
