-- ===== src/Http3/Payload/Builder.antt =====
-- src/http3/frame/payload.rs and the builders of src/http3/frame/goaway.rs, push.rs, headers.rs and
-- data.rs. `none` is a panic: a slice copy of the wrong length or out of bounds.
pub mod RoundTrip
use net_wire_rs.Common.{ℕ, List, ◌++◌, Option, some, length, take, drop}
use net_wire_rs.Common.Result.{Result, ok, err, map_err}
use net_wire_rs.Common.Result.{◌>>=◌ as and_then}
use net_wire_rs.Packed.{◌>>=◌, copy_from_slice}
use net_wire_rs.Quic.Varint.{QuicVarInt, QuicVarIntBuildError, QuicVarIntLen, byte_len}
use net_wire_rs.Quic.Varint.{build as build_varint}
use net_wire_rs.Http3.Frame.{
  Http3Frame, Http3FrameBuildError, payload, eight_byte_builder, new_plan, write_header, finish,
}
use net_wire_rs.Http3.Frame.{build as build_frame}
use net_wire_rs.Http3.Payload.{
  Http3FramePayloadField, push_id_field, goaway_identifier_field, type_data, type_headers,
  type_cancel_push, type_goaway, type_max_push_id, Http3Headers, Http3Data, Http3CancelPush,
  Http3MaxPushId, Http3Goaway,
}

pub record EncodedVarInt : Type 0 where
  pub buffer : List ℕ
  pub len : QuicVarIntLen

-- EncodedVarInt::bytes
abbrev pub encoded_bytes : EncodedVarInt → List ℕ
encoded_bytes e = take (byte_len e.len) e.buffer

unfoldable pub encode_varint : ℕ → Result QuicVarIntBuildError EncodedVarInt
encode_varint value =
    let (buffer, result) = build_varint (eight_byte_builder value) in
    and_then result (λ varint. ok (record { buffer = buffer; len = varint.length_of }))

-- PUSH_PROMISE has one more error, when its payload's length overflows.
pub data Http3FramePayloadBuildError : Type 0 where
  payload_frame_error : Http3FrameBuildError → Http3FramePayloadBuildError
  payload_build_varint : Http3FramePayloadField → QuicVarIntBuildError → Http3FramePayloadBuildError

-- The body that the builders of CANCEL_PUSH, MAX_PUSH_ID and GOAWAY share: a frame whose payload
-- is one integer, with the view of that integer.
unfoldable pub build_integer_frame :
    ℕ
    → Http3FramePayloadField
    → List ℕ
    → ℕ
    → Option (List ℕ × Result Http3FramePayloadBuildError (Http3Frame × QuicVarInt))
build_integer_frame frame_type field destination value = elim (encode_varint value) [
  | err e ↦ some (destination, err (payload_build_varint field e))
  | ok encoded ↦ elim (new_plan frame_type (byte_len encoded.len) (length destination)) [
    | err e ↦ some (destination, err (payload_frame_error e))
    | ok p ↦ (do
      bytes ← (do
        headed ← write_header p (take p.required destination)
        copy_from_slice headed p.header_length (length headed) (encoded_bytes encoded))
      let frame = finish p bytes
      some (
        bytes ++ drop p.required destination,
        ok (
          frame,
          record {
            bytes = take (byte_len encoded.len) (payload frame);
            value = value;
            length_of = encoded.len;
          },
        ),
      ))
  ]
]

-- Http3GoawayBuilder::build
unfoldable pub build_goaway :
    List ℕ → ℕ → Option (List ℕ × Result Http3FramePayloadBuildError Http3Goaway)
build_goaway destination identifier = do
  (bytes, result) ← build_integer_frame type_goaway goaway_identifier_field destination identifier
  some (bytes, and_then result (λ (f, v). ok (record { goaway_frame = f; identifier = v })))

-- Http3CancelPushBuilder::build
unfoldable pub build_cancel_push :
    List ℕ → ℕ → Option (List ℕ × Result Http3FramePayloadBuildError Http3CancelPush)
build_cancel_push destination push_id = do
  (bytes, result) ← build_integer_frame type_cancel_push push_id_field destination push_id
  some (bytes, and_then result (λ (f, v). ok (record { cancel_push_frame = f; cancelled = v })))

-- Http3MaxPushIdBuilder::build
unfoldable pub build_max_push_id :
    List ℕ → ℕ → Option (List ℕ × Result Http3FramePayloadBuildError Http3MaxPushId)
build_max_push_id destination push_id = do
  (bytes, result) ← build_integer_frame type_max_push_id push_id_field destination push_id
  some (bytes, and_then result (λ (f, v). ok (record { max_push_id_frame = f; push_id = v })))

-- Http3HeadersBuilder::build
unfoldable pub build_headers :
    List ℕ → List ℕ → Option (List ℕ × Result Http3FrameBuildError Http3Headers)
build_headers destination section = do
  (bytes, result) ←
      build_frame (record {
        destination = destination;
        builder_type = type_headers;
        builder_payload = section;
      })
  some (bytes, and_then result (λ f. ok (record { headers_frame = f })))

-- Http3DataBuilder::build
unfoldable pub build_data :
    List ℕ → List ℕ → Option (List ℕ × Result Http3FrameBuildError Http3Data)
build_data destination content = do
  (bytes, result) ←
      build_frame
        (record { destination = destination; builder_type = type_data; builder_payload = content })
  some (bytes, and_then result (λ f. ok (record { data_frame = f })))
