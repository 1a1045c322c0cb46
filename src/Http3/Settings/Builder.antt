-- ===== src/Http3/Settings/Builder.antt =====
-- src/http3/settings.rs: building a SETTINGS frame.
-- `none` is a panic: a slice copy out of bounds. The sums of an offset and a width are not checked:
-- the payload length that was validated bounds them.
pub mod Written
pub mod Received
pub mod RoundTrip
pub mod Outcome
use net_wire_rs.Common.{ℕ, ◌+◌, ltb, ◌==◌, if◌then◌else◌, Bool, length, take}
use net_wire_rs.Common.{List, [], ◌∷◌, ◌++◌, Option, none, some}
use net_wire_rs.Common.Result.{Result, ok, err, ok_or, map_err, checked_add}
use net_wire_rs.Common.Result.{◌>>=◌ as and_then}
use net_wire_rs.Packed.{◌>>=◌, copy_from_slice}
use net_wire_rs.Quic.Varint.{QuicVarIntBuildError, QuicVarIntLen, byte_len}
use net_wire_rs.Quic.Varint.{build as build_varint}
use net_wire_rs.Http3.Frame.{Http3FrameBuildError, Http3Frame, eight_byte_builder}
use net_wire_rs.Http3.Frame.{build as build_frame}
use net_wire_rs.Http3.Payload.{
  Http3FramePayloadField, setting_identifier_field, setting_value_field, type_settings,
}
use net_wire_rs.Http3.Payload.Builder.{EncodedVarInt, encoded_bytes, encode_varint}
use net_wire_rs.Http3.Settings.{Http3Settings, prohibited_setting}

pub record Http3SettingValue : Type 0 where
  pub sent_id : ℕ
  pub sent_value : ℕ

pub data Http3SettingsBuildError : Type 0 where
  settings_frame_error : Http3FrameBuildError → Http3SettingsBuildError
  setting_varint : Http3FramePayloadField → QuicVarIntBuildError → Http3SettingsBuildError
  payload_length_overflow : ℕ → ℕ → ℕ → Http3SettingsBuildError
  scratch_too_short : ℕ → ℕ → Http3SettingsBuildError
  duplicate_outbound : ℕ → Http3SettingsBuildError
  prohibited_outbound : ℕ → Http3SettingsBuildError

abbrev pub add_setting_payload : ℕ → ℕ → ℕ → Result Http3SettingsBuildError ℕ
add_setting_payload index current addition =
    ok_or (checked_add current addition) (payload_length_overflow index current addition)

unfoldable pub has_outbound : ℕ → List Http3SettingValue → Bool
has_outbound id [] = Bool.false
has_outbound id (s ∷ rest) =
    let later = has_outbound id rest in if s.sent_id == id then Bool.true else later

-- An identifier and a value, encoded.
unfoldable pub encode_setting :
    Http3SettingValue → Result Http3SettingsBuildError (EncodedVarInt × EncodedVarInt)
encode_setting s =
    and_then (map_err (setting_varint setting_identifier_field) (encode_varint s.sent_id)) (λ id.
      and_then (map_err (setting_varint setting_value_field) (encode_varint s.sent_value))
        (λ value. ok (id, value)))

-- What one setting adds to the payload's length.
unfoldable pub add_setting : ℕ → ℕ → Http3SettingValue → Result Http3SettingsBuildError ℕ
add_setting index payload_length s = and_then (encode_setting s) (λ (id, value).
    and_then (add_setting_payload index payload_length (byte_len id.len))
      (λ with_id. add_setting_payload index with_id (byte_len value.len)))

-- The loop of `validate_outbound_settings`, with the settings before the current one.
unfoldable pub validate_outbound :
    ℕ → List Http3SettingValue → List Http3SettingValue → Result Http3SettingsBuildError ℕ
validate_outbound payload_length previous [] = ok payload_length
validate_outbound payload_length previous (s ∷ rest) =
    if prohibited_setting s.sent_id
    then err (prohibited_outbound s.sent_id)
    else if has_outbound s.sent_id previous
    then err (duplicate_outbound s.sent_id)
    else and_then (add_setting (length previous) payload_length s)
        (λ next. validate_outbound next (previous ++ (s ∷ [])) rest)

unfoldable pub validate_outbound_settings :
    List Http3SettingValue → Result Http3SettingsBuildError ℕ
validate_outbound_settings settings = validate_outbound 0 [] settings

-- The loop of `build` over the payload workspace.
unfoldable pub write_settings :
    ℕ
    → List ℕ
    → List Http3SettingValue
    → Option (List ℕ × Result Http3SettingsBuildError (Unit {0}))
write_settings offset scratch [] = some (scratch, ok tt)
write_settings offset scratch (s ∷ rest) = elim (encode_setting s) [
  | err e ↦ some (scratch, err e)
  | ok (id, value) ↦
      let id_end = offset + byte_len id.len in
      let value_end = id_end + byte_len value.len in
      (do
        with_id ← copy_from_slice scratch offset id_end (encoded_bytes id)
        with_value ← copy_from_slice with_id id_end value_end (encoded_bytes value)
        write_settings value_end with_value rest)
]

pub record Http3SettingsBuilder : Type 0 where
  pub settings_destination : List ℕ
  pub payload_scratch : List ℕ
  pub outbound : List Http3SettingValue

-- `build` behind the payload: the frame around the first bytes of the workspace.
unfoldable pub build_around :
    List ℕ → List ℕ → Option (List ℕ × Result Http3SettingsBuildError Http3Settings)
build_around destination body = do
  (written, result) ←
      build_frame
        (record { destination = destination; builder_type = type_settings; builder_payload = body })
  some (
    written,
    and_then (map_err settings_frame_error result) (λ f. ok (record { settings_frame = f })),
  )

-- Http3SettingsBuilder::build, with the destination as it stands after the call.
unfoldable pub build :
    Http3SettingsBuilder → Option (List ℕ × Result Http3SettingsBuildError Http3Settings)
build b = elim (validate_outbound_settings b.outbound) [
  | err e ↦ some (b.settings_destination, err e)
  | ok payload_length ↦
      if ltb (length b.payload_scratch) payload_length
      then some (
        b.settings_destination,
        err (scratch_too_short payload_length (length b.payload_scratch)),
      )
      else (do
        (scratch, result) ← write_settings 0 b.payload_scratch b.outbound
        elim result [
          | err e ↦ some (b.settings_destination, err e)
          | ok _ ↦ build_around b.settings_destination (take payload_length scratch)
        ])
]
