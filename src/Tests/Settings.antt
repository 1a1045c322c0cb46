-- ===== src/Tests/Settings.antt =====
-- src/http3/settings.rs on a payload with two settings.
use net_wire_rs.Common.{
  ℕ, ◌+◌, ◌⊎◌, length, drop, none, some, List, [], ◌∷◌, ◌++◌, ◌≡◌, refl, arith,
}
use net_wire_rs.Common.Result.{ok, err}
use net_wire_rs.Quic.Varint.{one, canonical_len, encode, be_bytes, mark_first}
use net_wire_rs.Quic.Varint.{build as build_varint}
use net_wire_rs.Packed.{copy_from_slice}
use net_wire_rs.Quic.Varint.{parse as parse_varint}
use net_wire_rs.Http3.Frame.{
  Http3Frame, payload, new_plan, plan_lengths, write_header, write_frame, finish,
}
use net_wire_rs.Http3.Frame.{build as build_frame, parse as parse_frame}
use net_wire_rs.Http3.Frame.RoundTrip.{size}
use net_wire_rs.Http3.Payload.{type_settings}
use net_wire_rs.Http3.Payload.Builder.{encode_varint}
use net_wire_rs.Http3.Payload.{goaway_from_frame, cancel_push_from_frame, max_push_id_from_frame}
use net_wire_rs.Http3.Payload.Builder.{build_goaway, build_cancel_push, build_max_push_id}
use net_wire_rs.Http3.Payload.Builder.RoundTrip.{ReadsBack, goaway_push-ReadsBack}
use net_wire_rs.Http3.Settings.Builder.{
  Http3SettingsBuilder, Http3SettingsBuildError, validate_outbound_settings, validate_outbound,
  has_outbound, add_setting, encode_setting, write_settings, build_around, build,
}
use net_wire_rs.Http3.Settings.Builder.Written.{AreSendable, payload_of}
use net_wire_rs.Http3.Settings.Builder.Received.{all_received}
use net_wire_rs.Http3.Settings.Builder.RoundTrip.{parse-build_settings}
use net_wire_rs.Http3.Settings.Builder.Outcome.{IsBuildable, build-IsBuildable}
use net_wire_rs.Http3.Control.{
  client, new_control, receive_control, receive_settings, receive_settled, receive_goaway,
  accept_goaway,
}
use net_wire_rs.Http3.Control.Order.{run}
use net_wire_rs.Http3.Settings.{
  Http3Settings, Http3PeerSettings, default_settings, settings_from_frame, validate_settings,
  validate_remaining, settings_of, items, parse_setting, validate_semantics, validate_loop,
  prohibited_setting, has_id, record_setting,
}
use net_wire_rs.Http3.Settings.Layout.{all_bytes}
use net_wire_rs.Http3.Settings.Validation.{Validated, with_values, validate_semantics-Validated}
use net_wire_rs.Http3.Settings.Stream.{settings_reader, IsSettingsOf, run-IsSettingsOf}

-- A table capacity of 32 and seven blocked streams.
abbrev settings_frame : Http3Frame
settings_frame = record {
  bytes = 4 ∷ 4 ∷ 1 ∷ 32 ∷ 7 ∷ 7 ∷ [];
  type_varint = record { bytes = 4 ∷ []; value = 4; length_of = one };
  length_varint = record { bytes = 4 ∷ []; value = 4; length_of = one };
}

abbrev settings : Http3Settings
settings = record { settings_frame = settings_frame }

frame_accepted : settings_from_frame settings_frame ≡ ok settings
unfolding settings_from_frame validate_settings validate_remaining parse_varint
frame_accepted = refl

validate_semantics-Validated_example :
    (all_bytes (settings_of settings) ≡ payload settings_frame)
    × Validated default_settings 0 [] (settings_of settings) (validate_semantics settings)
validate_semantics-Validated_example =
    validate_semantics-Validated settings_frame settings frame_accepted (omega arith)

abbrev peer : Http3PeerSettings
peer = record {
  qpack_max_table_capacity = 32;
  maximum_field_section_size = none;
  qpack_blocked_streams = 7;
}

abbrev goaway_frame : Http3Frame
goaway_frame = record {
  bytes = 7 ∷ 1 ∷ 8 ∷ [];
  type_varint = record { bytes = 7 ∷ []; value = 7; length_of = one };
  length_varint = record { bytes = 1 ∷ []; value = 1; length_of = one };
}

abbrev frames : List Http3Frame
frames = settings_frame ∷ goaway_frame ∷ []

peer_known : (run settings_reader (new_control settings_reader client) frames).settings ≡ some peer
unfolding run receive_control receive_settings receive_settled receive_goaway accept_goaway
    goaway_from_frame settings_from_frame validate_settings validate_remaining validate_semantics
    settings_of items parse_setting validate_loop prohibited_setting has_id record_setting
    parse_varint
peer_known = refl

run-IsSettingsOf_example :
    (before : List Http3Frame) × (f : Http3Frame) × (after : List Http3Frame) × (frames
      ≡ before ++ (f ∷ after))
    × IsSettingsOf f peer
run-IsSettingsOf_example =
    run-IsSettingsOf client frames peer (omega arith, (omega arith, tt)) peer_known

-- A table capacity of 32 and seven blocked streams, with three bytes behind the frame.
abbrev settings_builder : Http3SettingsBuilder
settings_builder = record {
  settings_destination = 9 ∷ 9 ∷ 9 ∷ 9 ∷ 9 ∷ 9 ∷ 9 ∷ 9 ∷ 9 ∷ [];
  payload_scratch = 8 ∷ 8 ∷ 8 ∷ 8 ∷ 8 ∷ [];
  outbound = record { sent_id = 1; sent_value = 32 } ∷ record { sent_id = 7; sent_value = 7 } ∷ [];
}

built : build settings_builder ≡ some (4 ∷ 4 ∷ 1 ∷ 32 ∷ 7 ∷ 7 ∷ 9 ∷ 9 ∷ 9 ∷ [], ok settings)
unfolding build validate_outbound_settings validate_outbound has_outbound add_setting encode_setting
    encode_varint prohibited_setting write_settings copy_from_slice build_around build_frame
    new_plan plan_lengths write_header write_frame finish build_varint canonical_len encode be_bytes
    mark_first
built = refl

sendable : AreSendable [] settings_builder.outbound
unfolding prohibited_setting has_outbound
sendable =
    (omega arith, (omega arith, (refl, (refl, (omega arith, (omega arith, (refl, (refl, tt))))))))

payload_small : length (payload_of settings_builder.outbound) ≡ 4
unfolding payload_of canonical_len encode be_bytes mark_first
payload_small = refl

frame_small : size type_settings + size 4 + 4 ≡ 6
unfolding canonical_len
frame_small = refl

parse-build_settings_example :
    (dst : List ℕ) × (s : Http3Settings) × (build settings_builder ≡ some (dst, ok s))
    × (parse_frame dst 4 ≡ ok s.settings_frame)
    × (settings_from_frame s.settings_frame ≡ ok s)
    × (settings_of s ≡ all_received settings_builder.outbound)
    × (validate_semantics s
        ≡ ok (with_values default_settings (all_received settings_builder.outbound)))
    × (length dst ≡ length settings_builder.settings_destination)
    × (drop (length s.settings_frame.bytes) dst
        ≡ drop (length s.settings_frame.bytes) settings_builder.settings_destination)
parse-build_settings_example =
    parse-build_settings settings_builder 4 sendable (rw payload_small (omega arith))
      (rw payload_small (omega arith)) (rw (payload_small, frame_small) (omega arith)) (omega arith)
      (rw payload_small (omega arith))

build-IsBuildable_example :
    (IsBuildable settings_builder
      × (dst : List ℕ) × (s : Http3Settings) × (build settings_builder ≡ some (dst, ok s)))
    ⊎ ((e : Http3SettingsBuildError) × (build settings_builder
          ≡ some (settings_builder.settings_destination, err e)))
build-IsBuildable_example = build-IsBuildable settings_builder (omega arith)

abbrev spare_bytes : List ℕ
spare_bytes = 9 ∷ 9 ∷ 9 ∷ 9 ∷ 9 ∷ []

size_eight : size 8 ≡ 1
unfolding canonical_len
size_eight = refl

goaway_push-ReadsBack_example :
    ReadsBack
      (build_goaway spare_bytes 8)
      (λ g. g.goaway_frame)
      (λ g. g.identifier)
      goaway_from_frame
      8
      spare_bytes
      1
    × ReadsBack
        (build_cancel_push spare_bytes 8)
        (λ c. c.cancel_push_frame)
        (λ c. c.cancelled)
        cancel_push_from_frame
        8
        spare_bytes
        1
    × ReadsBack
        (build_max_push_id spare_bytes 8)
        (λ m. m.max_push_id_frame)
        (λ m. m.push_id)
        max_push_id_from_frame
        8
        spare_bytes
        1
goaway_push-ReadsBack_example =
    goaway_push-ReadsBack 8 1 spare_bytes (omega arith) (rw size_eight (omega arith)) (omega arith)
      (rw size_eight (omega arith))
