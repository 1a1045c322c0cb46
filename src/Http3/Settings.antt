-- ===== src/Http3/Settings.antt =====
-- src/http3/settings.rs: reading a SETTINGS frame and validating its settings. A successful integer
-- parse leaves the rest of its input, so the slices behind it cannot panic.
pub mod Layout
pub mod Validation
pub mod Stream
pub mod Builder
use net_wire_rs.Common.{
  ℕ, zero, suc, ◌+◌, ◌-◌, ◌≤◌, ◌==◌, ◌||◌, if◌then◌else◌, Bool, List, [], ◌∷◌, ◌++◌, Option, none,
  some, length, take, drop, length-drop, arith,
}
use net_wire_rs.Common.Result.{Result, ok, err, ◌>>=◌, checked_add}
use net_wire_rs.Quic.Varint.{QuicVarInt, QuicVarIntLen, byte_len}
use net_wire_rs.Quic.Varint.{parse as parse_varint}
use net_wire_rs.Quic.Varint.Parse.{byte_len-tail_len}
use net_wire_rs.Http3.Frame.{Http3Frame, payload}
use net_wire_rs.Http3.Payload.{
  type_settings, validate_type, parse_payload_varint, Http3FramePayloadParseError,
  setting_identifier_field, setting_value_field,
}

-- The constants of Http3SettingId.
abbrev pub id_qpack_max_table_capacity : ℕ
id_qpack_max_table_capacity = 0x01

abbrev pub id_max_field_section_size : ℕ
id_max_field_section_size = 0x06

abbrev pub id_qpack_blocked_streams : ℕ
id_qpack_blocked_streams = 0x07

pub record Http3Setting : Type 0 where
  pub bytes : List ℕ
  pub id : QuicVarInt
  pub value : QuicVarInt

pub record Http3Settings : Type 0 where
  pub settings_frame : Http3Frame

-- The rest behind two integers is shorter than the input.
pub rest_fits :
    (rounds : ℕ) (i v : QuicVarIntLen) (b : ℕ) (rest : List ℕ)
    → length (b ∷ rest) ≤ suc rounds
    → length (drop (byte_len v) (drop (byte_len i) (b ∷ rest))) ≤ rounds
rest_fits rounds i v b rest h = omega (
  arith,
  length-drop (byte_len v) (drop (byte_len i) (b ∷ rest)),
  length-drop (byte_len i) (b ∷ rest),
  byte_len-tail_len i,
)

-- The loop of `validate_settings` over what remains of the payload; its length bounds the rounds.
unfoldable pub validate_remaining :
    (rounds : ℕ) (whole remaining : List ℕ)
    → length remaining ≤ rounds
    → Result Http3FramePayloadParseError (Unit {0})
validate_remaining rounds whole [] h = ok tt
validate_remaining zero whole (b ∷ rest) h = absurd (omega arith)
validate_remaining (suc rounds) whole (b ∷ rest) h = do
  identifier ←
      parse_payload_varint (b ∷ rest) setting_identifier_field (length whole - length (b ∷ rest))
  let after = drop (byte_len identifier.length_of) (b ∷ rest)
  value ← parse_payload_varint after setting_value_field (length whole - length after)
  validate_remaining rounds whole (drop (byte_len value.length_of) after)
      (rest_fits rounds identifier.length_of value.length_of b rest h)

unfoldable pub validate_settings : List ℕ → Result Http3FramePayloadParseError (Unit {0})
validate_settings bytes = validate_remaining (length bytes) bytes bytes (omega arith)

-- Http3Settings::from_frame
unfoldable pub settings_from_frame : Http3Frame → Result Http3FramePayloadParseError Http3Settings
settings_from_frame f = do
  _ ← validate_type f type_settings
  _ ← validate_settings (payload f)
  ok (record { settings_frame = f })

unfoldable pub parse_setting : List ℕ → Option (Http3Setting × List ℕ)
parse_setting bytes = elim (parse_varint bytes) [
  | err e ↦ none
  | ok id ↦
      let after_id = drop (byte_len id.length_of) bytes in
      elim (parse_varint after_id) [
        | err e ↦ none
        | ok value ↦
            let remaining = drop (byte_len value.length_of) after_id in
            some (
              record {
                bytes = take (length bytes - length remaining) bytes;
                id = id;
                value = value;
              },
              remaining,
            )
      ]
]

-- The items of Http3SettingsIter. Each takes a byte, so the input's length bounds them.
unfoldable pub items : ℕ → List ℕ → List Http3Setting
items zero bytes = []
items (suc fuel) bytes = elim (parse_setting bytes) [
  | none ↦ []
  | some (setting, remaining) ↦ setting ∷ items fuel remaining
]

-- Http3Settings::settings
unfoldable pub settings_of : Http3Settings → List Http3Setting
settings_of s = items (length (payload s.settings_frame)) (payload s.settings_frame)

pub data Http3SettingsSemanticError : Type 0 where
  duplicate_setting : ℕ → ℕ → Http3SettingsSemanticError
  prohibited_setting_at : ℕ → ℕ → Http3SettingsSemanticError

pub record Http3PeerSettings : Type 0 where
  pub qpack_max_table_capacity : ℕ
  pub maximum_field_section_size : Option ℕ
  pub qpack_blocked_streams : ℕ

-- Http3PeerSettings::default
abbrev pub default_settings : Http3PeerSettings
default_settings = record {
  qpack_max_table_capacity = 0;
  maximum_field_section_size = none;
  qpack_blocked_streams = 0;
}

unfoldable pub prohibited_setting : ℕ → Bool
prohibited_setting id = id == 0x00 || (id == 0x02 || (id == 0x03 || (id == 0x04 || id == 0x05)))

-- The settings of an identifier are recorded.
unfoldable pub record_setting : Http3PeerSettings → ℕ → ℕ → Http3PeerSettings
record_setting p id value =
    if id == id_qpack_max_table_capacity
    then record p { qpack_max_table_capacity = value }
    else if id == id_max_field_section_size
    then record p { maximum_field_section_size = some value }
    else if id == id_qpack_blocked_streams
    then record p { qpack_blocked_streams = value }
    else p

unfoldable pub has_id : ℕ → List Http3Setting → Bool
has_id id [] = Bool.false
has_id id (s ∷ rest) = let later = has_id id rest in if s.id.value == id then Bool.true else later

abbrev pub next_offset : ℕ → ℕ → ℕ
next_offset offset n = elim (checked_add offset n) [ some next ↦ next | none ↦ offset ]

-- The loop of `validate`, with the settings before the current one.
unfoldable pub validate_loop :
    Http3PeerSettings
    → ℕ
    → List Http3Setting
    → List Http3Setting
    → Result Http3SettingsSemanticError Http3PeerSettings
validate_loop peer offset previous [] = ok peer
validate_loop peer offset previous (s ∷ rest) =
    let id = s.id.value in
    let later =
      validate_loop (record_setting peer id s.value.value) (next_offset offset (length s.bytes))
        (previous ++ (s ∷ [])) rest in
    if prohibited_setting id
    then err (prohibited_setting_at id offset)
    else if has_id id previous
    then err (duplicate_setting id offset)
    else later

-- Http3Settings::validate_semantics
unfoldable pub validate_semantics :
    Http3Settings → Result Http3SettingsSemanticError Http3PeerSettings
validate_semantics s = validate_loop default_settings 0 [] (settings_of s)
