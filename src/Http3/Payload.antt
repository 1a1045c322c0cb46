-- ===== src/Http3/Payload.antt =====
-- src/http3/codepoints.rs, src/http3/frame/payload.rs and the typed frame views of
-- src/http3/frame/headers.rs, data.rs, push.rs and goaway.rs: what each frame's payload has to be.
pub mod Builder
use net_wire_rs.Common.{ℕ, ◌==◌, if◌then◌else◌, ◌||◌, length, List, Bool}
use net_wire_rs.Common.Result.{Result, ok, err, ◌>>=◌, map_err}
use net_wire_rs.Quic.Varint.{QuicVarInt, QuicVarIntParseError, byte_len}
use net_wire_rs.Quic.Varint.{parse as parse_varint}
use net_wire_rs.Http3.Frame.{Http3Frame, frame_type, payload}

-- The constants of Http3FrameType.
abbrev pub type_data : ℕ
type_data = 0x00

abbrev pub type_headers : ℕ
type_headers = 0x01

abbrev pub type_cancel_push : ℕ
type_cancel_push = 0x03

abbrev pub type_settings : ℕ
type_settings = 0x04

abbrev pub type_push_promise : ℕ
type_push_promise = 0x05

abbrev pub type_goaway : ℕ
type_goaway = 0x07

abbrev pub type_max_push_id : ℕ
type_max_push_id = 0x0d

abbrev pub is_http2_reserved_frame_type : ℕ → Bool
is_http2_reserved_frame_type t = t == 0x02 || (t == 0x06 || (t == 0x08 || t == 0x09))

pub data Http3FramePayloadField : Type 0 where
  push_id_field goaway_identifier_field setting_identifier_field setting_value_field :
      Http3FramePayloadField

-- The variant `Frame` comes from reading the envelope, which these functions are given.
pub data Http3FramePayloadParseError : Type 0 where
  wrong_frame_type : ℕ → ℕ → Http3FramePayloadParseError
  payload_varint : Http3FramePayloadField → ℕ → QuicVarIntParseError → Http3FramePayloadParseError
  trailing_payload : ℕ → ℕ → Http3FramePayloadParseError

abbrev pub validate_type : Http3Frame → ℕ → Result Http3FramePayloadParseError (Unit {0})
validate_type f expected =
    if frame_type f == expected then ok tt else err (wrong_frame_type expected (frame_type f))

abbrev pub parse_payload_varint :
    List ℕ → Http3FramePayloadField → ℕ → Result Http3FramePayloadParseError QuicVarInt
parse_payload_varint bytes field offset = map_err (payload_varint field offset) (parse_varint bytes)

abbrev pub parse_exact_varint :
    List ℕ → Http3FramePayloadField → Result Http3FramePayloadParseError QuicVarInt
parse_exact_varint bytes field = do
  varint ← parse_payload_varint bytes field 0
  if byte_len varint.length_of == length bytes
      then ok varint
      else err (trailing_payload (byte_len varint.length_of) (length bytes))

pub record Http3Headers : Type 0 where
  pub headers_frame : Http3Frame

pub record Http3Data : Type 0 where
  pub data_frame : Http3Frame

pub record Http3CancelPush : Type 0 where
  pub cancel_push_frame : Http3Frame
  pub cancelled : QuicVarInt

pub record Http3PushPromise : Type 0 where
  pub push_promise_frame : Http3Frame
  pub promised : QuicVarInt

pub record Http3MaxPushId : Type 0 where
  pub max_push_id_frame : Http3Frame
  pub push_id : QuicVarInt

pub record Http3Goaway : Type 0 where
  pub goaway_frame : Http3Frame
  pub identifier : QuicVarInt

-- The `from_frame` of each view.
unfoldable pub headers_from_frame : Http3Frame → Result Http3FramePayloadParseError Http3Headers
headers_from_frame f = do _ ← validate_type f type_headers; ok (record { headers_frame = f })

unfoldable pub data_from_frame : Http3Frame → Result Http3FramePayloadParseError Http3Data
data_from_frame f = do _ ← validate_type f type_data; ok (record { data_frame = f })

unfoldable pub cancel_push_from_frame :
    Http3Frame → Result Http3FramePayloadParseError Http3CancelPush
cancel_push_from_frame f = do
  _ ← validate_type f type_cancel_push
  push_id ← parse_exact_varint (payload f) push_id_field
  ok (record { cancel_push_frame = f; cancelled = push_id })

unfoldable pub push_promise_from_frame :
    Http3Frame → Result Http3FramePayloadParseError Http3PushPromise
push_promise_from_frame f = do
  _ ← validate_type f type_push_promise
  push_id ← parse_payload_varint (payload f) push_id_field 0
  ok (record { push_promise_frame = f; promised = push_id })

unfoldable pub max_push_id_from_frame :
    Http3Frame → Result Http3FramePayloadParseError Http3MaxPushId
max_push_id_from_frame f = do
  _ ← validate_type f type_max_push_id
  push_id ← parse_exact_varint (payload f) push_id_field
  ok (record { max_push_id_frame = f; push_id = push_id })

unfoldable pub goaway_from_frame : Http3Frame → Result Http3FramePayloadParseError Http3Goaway
goaway_from_frame f = do
  _ ← validate_type f type_goaway
  identifier ← parse_exact_varint (payload f) goaway_identifier_field
  ok (record { goaway_frame = f; identifier = identifier })
