-- ===== src/Http3/Control.antt =====
-- src/http3/stream/control.rs: the state of an incoming control stream. A call returns the state as
-- it stands after it beside its result. Reading a SETTINGS payload and validating its settings,
-- src/http3/settings.rs, are the operations `from_frame` and `validate_semantics` of an interface.
pub mod Order
pub mod Accepted
pub mod Started
use net_wire_rs.Common.{ℕ, ◌==◌, if◌then◌else◌, ltb, bit_and, Bool, Option, none, some, not, ◌||◌}
use net_wire_rs.Common.Result.{Result, ok, err, ◌>>=◌, map_err}
use net_wire_rs.Http3.Frame.{Http3Frame, frame_type}
use net_wire_rs.Http3.Payload.{
  type_data, type_headers, type_cancel_push, type_settings, type_push_promise, type_goaway,
  type_max_push_id, is_http2_reserved_frame_type, Http3FramePayloadParseError, Http3CancelPush,
  Http3Goaway, Http3MaxPushId, cancel_push_from_frame, goaway_from_frame, max_push_id_from_frame,
}

pub data Http3EndpointRole : Type 0 where
  client server : Http3EndpointRole

abbrev pub is_client : Http3EndpointRole → Bool
is_client client = Bool.true
is_client server = Bool.false

-- src/http3/settings.rs: Http3Settings, Http3PeerSettings and the errors of validation.
pub record SettingsReader : Type 1 where
  pub Http3Settings : Type 0
  pub Http3PeerSettings : Type 0
  pub Http3SettingsSemanticError : Type 0
  pub from_frame : Http3Frame → Result Http3FramePayloadParseError Http3Settings
  pub validate_semantics : Http3Settings → Result Http3SettingsSemanticError Http3PeerSettings

pub data Http3ControlFrame (R : SettingsReader) : Type 0 where
  settings_frame : R.Http3Settings → R.Http3PeerSettings → Http3ControlFrame R
  cancel_push : Http3CancelPush → Http3ControlFrame R
  goaway : Http3Goaway → Http3ControlFrame R
  max_push_id : Http3MaxPushId → Http3ControlFrame R
  unknown : Http3Frame → Http3ControlFrame R

pub data Http3ControlStreamError (R : SettingsReader) : Type 0 where
  missing_settings : ℕ → Http3ControlStreamError R
  unexpected_control_frame : ℕ → Http3ControlStreamError R
  control_payload : ℕ → Http3FramePayloadParseError → Http3ControlStreamError R
  bad_settings : R.Http3SettingsSemanticError → Http3ControlStreamError R
  invalid_goaway_stream_id : ℕ → Http3ControlStreamError R
  increased_goaway_identifier : ℕ → ℕ → Http3ControlStreamError R
  reduced_maximum_push_id : ℕ → ℕ → Http3ControlStreamError R

pub record Http3ControlStreamState (R : SettingsReader) : Type 0 where
  pub local_role : Http3EndpointRole
  pub settings : Option R.Http3PeerSettings
  pub last_goaway_identifier : Option ℕ
  pub maximum_push_id : Option ℕ

-- `if let Some(previous) = last && identifier > previous`
abbrev pub exceeds : ℕ → Option ℕ → Bool
exceeds n none = Bool.false
exceeds n (some previous) = ltb previous n

abbrev pub falls_below : ℕ → Option ℕ → Bool
falls_below n none = Bool.false
falls_below n (some previous) = ltb n previous

abbrev pub or_zero : Option ℕ → ℕ
or_zero none = 0
or_zero (some n) = n

abbrev pub never_on_control : ℕ → Bool
never_on_control t =
    if t == type_settings
    then Bool.true
    else if t == type_data
    then Bool.true
    else if t == type_headers
    then Bool.true
    else if t == type_push_promise
    then Bool.true
    else is_http2_reserved_frame_type t

module _ (R : SettingsReader) where
  abbrev pub State : Type 0
  State = Http3ControlStreamState R

  abbrev pub Outcome : Type 0
  Outcome = State × Result (Http3ControlStreamError R) (Http3ControlFrame R)

  -- Http3ControlStreamState::new
  abbrev pub new_control : Http3EndpointRole → State
  new_control role = record {
    local_role = role;
    settings = none;
    last_goaway_identifier = none;
    maximum_push_id = none;
  }

  unfoldable pub receive_settings : State → Http3Frame → Outcome
  receive_settings s f = elim (R.from_frame f) [
    | err e ↦ (s, err (control_payload type_settings e))
    | ok settings ↦ elim (R.validate_semantics settings) [
      | err e ↦ (s, err (bad_settings e))
      | ok peer ↦ (record s { settings = some peer }, ok (settings_frame settings peer))
    ]
  ]

  unfoldable pub receive_cancel_push : State → Http3Frame → Outcome
  receive_cancel_push s f =
      if is_client s.local_role
      then (s, err (unexpected_control_frame type_cancel_push))
      else elim (cancel_push_from_frame f) [
        | ok c ↦ (s, ok (cancel_push c))
        | err e ↦ (s, err (control_payload type_cancel_push e))
      ]

  unfoldable pub accept_goaway : State → Http3Goaway → ℕ → Outcome
  accept_goaway s g identifier =
      let misplaced = not (bit_and identifier 0x03 == 0) in
      if (if is_client s.local_role then misplaced else Bool.false)
      then (s, err (invalid_goaway_stream_id identifier))
      else if exceeds identifier s.last_goaway_identifier
      then (s, err (increased_goaway_identifier (or_zero s.last_goaway_identifier) identifier))
      else (record s { last_goaway_identifier = some identifier }, ok (goaway g))

  unfoldable pub receive_goaway : State → Http3Frame → Outcome
  receive_goaway s f = elim (goaway_from_frame f) [
    | err e ↦ (s, err (control_payload type_goaway e))
    | ok g ↦ accept_goaway s g g.identifier.value
  ]

  unfoldable pub accept_max_push_id : State → Http3MaxPushId → ℕ → Outcome
  accept_max_push_id s m current =
      if falls_below current s.maximum_push_id
      then (s, err (reduced_maximum_push_id (or_zero s.maximum_push_id) current))
      else (record s { maximum_push_id = some current }, ok (max_push_id m))

  unfoldable pub receive_max_push_id : State → Http3Frame → Outcome
  receive_max_push_id s f =
      if is_client s.local_role
      then (s, err (unexpected_control_frame type_max_push_id))
      else elim (max_push_id_from_frame f) [
        | err e ↦ (s, err (control_payload type_max_push_id e))
        | ok m ↦ accept_max_push_id s m m.push_id.value
      ]

  -- `receive` once the settings are known.
  unfoldable pub receive_settled : State → Http3Frame → Outcome
  receive_settled s f =
      let t = frame_type f in
      if never_on_control t
      then (s, err (unexpected_control_frame t))
      else if t == type_cancel_push
      then receive_cancel_push s f
      else if t == type_goaway
      then receive_goaway s f
      else if t == type_max_push_id
      then receive_max_push_id s f
      else (s, ok (unknown f))

  -- `receive`, by what `self.settings` is.
  unfoldable pub receive_given : Option R.Http3PeerSettings → State → Http3Frame → Outcome
  receive_given none s f =
      if frame_type f == type_settings
      then receive_settings s f
      else (s, err (missing_settings (frame_type f)))
  receive_given (some _) s f = receive_settled s f

  -- Http3ControlStreamState::receive
  unfoldable pub receive_control : State → Http3Frame → Outcome
  unfolding receive_given
  receive_control s f = receive_given s.settings s f
