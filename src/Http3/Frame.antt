-- ===== src/Http3/Frame.antt =====
-- src/http3/frame/envelope.rs: exact frame views and the builder. A frame type is its number.
-- `none` is a panic of the source: a slice copy of the wrong length or out of bounds.
pub mod RoundTrip
use net_wire_rs.Common.{ℕ, zero, suc, ◌+◌, ◌-◌, ltb, if◌then◌else◌, length, take, drop}
use net_wire_rs.Common.{List, [], ◌∷◌, ◌++◌, Option, none, some, Bool}
use net_wire_rs.Common.Result.{Result, ok, err, ok_or, map_err, checked_add}
use net_wire_rs.Common.Result.{◌>>=◌ as and_then}
use net_wire_rs.Packed.{◌>>=◌, copy_from_slice}
use net_wire_rs.Quic.Varint.{
  QuicVarInt, QuicVarIntParseError, QuicVarIntBuildError, QuicVarIntLen, QuicVarIntBuilder,
  byte_len,
}
use net_wire_rs.Quic.Varint.{parse as parse_varint, build as build_varint}

pub data Http3FrameParseError : Type 0 where
  type_varint_error : QuicVarIntParseError → Http3FrameParseError
  length_varint_error : QuicVarIntParseError → Http3FrameParseError
  payload_length_not_representable : ℕ → Http3FrameParseError
  frame_length_overflow : ℕ → ℕ → ℕ → Http3FrameParseError
  payload_too_large : ℕ → ℕ → Http3FrameParseError
  incomplete_payload : ℕ → ℕ → Http3FrameParseError

pub record Http3Frame : Type 0 where
  pub bytes : List ℕ
  pub type_varint : QuicVarInt
  pub length_varint : QuicVarInt

abbrev pub frame_type : Http3Frame → ℕ
frame_type f = f.type_varint.value

abbrev pub payload : Http3Frame → List ℕ
payload f = drop (byte_len f.type_varint.length_of + byte_len f.length_varint.length_of) f.bytes

-- The bytes of the whole frame. A u64 is a usize, so the first conversion does not fail.
unfoldable pub frame_length : ℕ → ℕ → ℕ → ℕ → ℕ → Result Http3FrameParseError ℕ
frame_length type_length length_length payload_length maximum_payload available =
    let overflow = frame_length_overflow type_length length_length payload_length in
    if ltb maximum_payload payload_length
    then err (payload_too_large maximum_payload payload_length)
    else and_then (ok_or (checked_add type_length length_length) overflow) (λ header_length.
      and_then (ok_or (checked_add header_length payload_length) overflow) (λ required.
        if ltb available required
        then err (incomplete_payload required available)
        else ok required))

-- `parse` behind the two integers.
unfoldable pub parse_body :
    List ℕ → ℕ → QuicVarInt → QuicVarInt → Result Http3FrameParseError Http3Frame
parse_body bytes maximum_payload t l =
    and_then
      (frame_length (byte_len t.length_of) (byte_len l.length_of) l.value maximum_payload
        (length bytes))
      (λ total_length.
        ok (record { bytes = take total_length bytes; type_varint = t; length_varint = l }))

-- Http3Frame::parse
unfoldable pub parse : List ℕ → ℕ → Result Http3FrameParseError Http3Frame
parse bytes maximum_payload = and_then (map_err type_varint_error (parse_varint bytes)) (λ t.
    and_then (map_err length_varint_error (parse_varint (drop (byte_len t.length_of) bytes)))
      (λ l. parse_body bytes maximum_payload t l))

pub data Http3FrameBuildError : Type 0 where
  bad_type_varint : QuicVarIntBuildError → Http3FrameBuildError
  bad_length_varint : QuicVarIntBuildError → Http3FrameBuildError
  bad_payload_length : ℕ → Http3FrameBuildError
  built_length_overflow : ℕ → ℕ → ℕ → Http3FrameBuildError
  frame_buffer_too_short : ℕ → ℕ → Http3FrameBuildError

pub record Http3FrameEnvelopePlan : Type 0 where
  pub plan_type : ℕ
  pub payload_length : ℕ
  pub type_bytes : List ℕ
  pub type_length : QuicVarIntLen
  pub length_bytes : List ℕ
  pub length_length : QuicVarIntLen
  pub header_length : ℕ
  pub required : ℕ

-- `let mut bytes = [0; 8]; QuicVarIntBuilder::new(&mut bytes, value)`
abbrev pub eight_byte_builder : ℕ → QuicVarIntBuilder
eight_byte_builder value = record {
  destination = 0 ∷ 0 ∷ 0 ∷ 0 ∷ 0 ∷ 0 ∷ 0 ∷ 0 ∷ [];
  value = value;
  length_of = none;
}

-- The room that a frame takes.
unfoldable pub plan_lengths :
    QuicVarIntLen → QuicVarIntLen → ℕ → ℕ → Result Http3FrameBuildError (ℕ × ℕ)
plan_lengths type_length length_length payload_length available =
    let overflow =
      built_length_overflow (byte_len type_length) (byte_len length_length) payload_length in
    and_then (ok_or (checked_add (byte_len type_length) (byte_len length_length)) overflow)
      (λ header_length.
        and_then (ok_or (checked_add header_length payload_length) overflow) (λ required.
          if ltb available required
          then err (frame_buffer_too_short required available)
          else ok (header_length, required)))

-- Http3FrameEnvelopePlan::new
unfoldable pub new_plan : ℕ → ℕ → ℕ → Result Http3FrameBuildError Http3FrameEnvelopePlan
new_plan plan_type payload_length available =
    let (type_bytes, type_result) = build_varint (eight_byte_builder plan_type) in
    let (length_bytes, length_result) = build_varint (eight_byte_builder payload_length) in
    and_then (map_err bad_type_varint type_result) (λ t.
      and_then (map_err bad_length_varint length_result) (λ l.
        and_then (plan_lengths t.length_of l.length_of payload_length available)
          (λ (header_length, required). ok (record {
            plan_type = plan_type;
            payload_length = payload_length;
            type_bytes = type_bytes;
            type_length = t.length_of;
            length_bytes = length_bytes;
            length_length = l.length_of;
            header_length = header_length;
            required = required;
          }))))

unfoldable pub write_header : Http3FrameEnvelopePlan → List ℕ → Option (List ℕ)
write_header p destination = do
  typed ←
      copy_from_slice destination 0 (byte_len p.type_length)
        (take (byte_len p.type_length) p.type_bytes)
  copy_from_slice typed (byte_len p.type_length) p.header_length
      (take (byte_len p.length_length) p.length_bytes)

unfoldable pub finish : Http3FrameEnvelopePlan → List ℕ → Http3Frame
finish p bytes = record {
  bytes = bytes;
  type_varint = record {
    bytes = take (byte_len p.type_length) bytes;
    value = p.plan_type;
    length_of = p.type_length;
  };
  length_varint = record {
    bytes = take (byte_len p.length_length) (drop (byte_len p.type_length) bytes);
    value = p.payload_length;
    length_of = p.length_length;
  };
}

pub record Http3FrameBuilder : Type 0 where
  pub destination : List ℕ
  pub builder_type : ℕ
  pub builder_payload : List ℕ

unfoldable pub write_frame : Http3FrameBuilder → Http3FrameEnvelopePlan → Option (List ℕ)
write_frame b p = do
  headed ← write_header p (take p.required b.destination)
  copy_from_slice headed p.header_length (length headed) b.builder_payload

-- Http3FrameBuilder::build
unfoldable pub build : Http3FrameBuilder → Option (List ℕ × Result Http3FrameBuildError Http3Frame)
build b = elim (new_plan b.builder_type (length b.builder_payload) (length b.destination)) [
  | err e ↦ some (b.destination, err e)
  | ok p ↦ (do
    bytes ← write_frame b p
    some (bytes ++ drop p.required b.destination, ok (finish p bytes)))
]
