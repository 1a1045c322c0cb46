-- ===== src/Http3/Message.antt =====
-- src/http3/stream/message.rs: the state of an incoming request, response or push stream. `receive`
-- changes no state: a HEADERS frame is pending, with the state, until its decoded header section
-- is accepted. The kind of a decoded section is what src/http3/headers.rs says of it.
pub mod Grammar
pub mod Complete
use net_wire_rs.Common.{ℕ, ◌==◌, if◌then◌else◌, Bool, true, false, not, List, [], ◌∷◌}
use net_wire_rs.Common.Result.{Result, ok, err, ◌>>=◌, map_err}
use net_wire_rs.Http3.Frame.{Http3Frame, frame_type}
use net_wire_rs.Http3.Payload.{
  type_data, type_headers, type_cancel_push, type_settings, type_push_promise, type_goaway,
  type_max_push_id, is_http2_reserved_frame_type, Http3FramePayloadParseError, Http3Headers,
  Http3Data, Http3PushPromise, headers_from_frame, data_from_frame, push_promise_from_frame,
}

pub data Http3MessageStreamKind : Type 0 where
  request_stream response_stream push_stream : Http3MessageStreamKind

pub data Http3MessagePosition : Type 0 where
  before_headers before_final_response content trailers : Http3MessagePosition

-- Of src/http3/enums/message.rs.
pub data Http3HeadersKind : Type 0 where
  request_section informational_section final_section trailer_section : Http3HeadersKind

pub data Http3MessageStreamError : Type 0 where
  unexpected_frame : ℕ → Http3MessagePosition → Http3MessageStreamError
  frame_payload : ℕ → Http3FramePayloadParseError → Http3MessageStreamError
  invalid_header_section :
      Http3MessageStreamKind → Http3MessagePosition → Http3HeadersKind → Http3MessageStreamError
  incomplete_message : Http3MessageStreamKind → Http3MessagePosition → Http3MessageStreamError

pub record Http3MessageStreamState : Type 0 where
  pub kind : Http3MessageStreamKind
  pub position : Http3MessagePosition

abbrev pub start : Http3MessageStreamKind → Http3MessagePosition
start request_stream = before_headers
start response_stream = before_final_response
start push_stream = before_final_response

-- Http3MessageStreamState::new
abbrev pub new : Http3MessageStreamKind → Http3MessageStreamState
new kind = record { kind = kind; position = start kind }

abbrev pub is_trailers : Http3MessagePosition → Bool
is_trailers trailers = true
is_trailers _ = false

abbrev pub is_content : Http3MessagePosition → Bool
is_content content = true
is_content _ = false

abbrev pub is_response : Http3MessageStreamKind → Bool
is_response response_stream = true
is_response _ = false

pub record Http3PendingHeaders : Type 0 where
  pub state : Http3MessageStreamState
  pub headers : Http3Headers

pub data Http3MessageFrame : Type 0 where
  data_message : Http3Data → Http3MessageFrame
  headers_message : Http3PendingHeaders → Http3MessageFrame
  push_promise_message : Http3PushPromise → Http3MessageFrame
  unknown_message : Http3Frame → Http3MessageFrame

abbrev pub never_on_messages : ℕ → Bool
never_on_messages t =
    if t == type_cancel_push
    then true
    else if t == type_settings
    then true
    else if t == type_goaway
    then true
    else t == type_max_push_id

-- Http3MessageStreamState::receive
unfoldable pub receive :
    Http3MessageStreamState → Http3Frame → Result Http3MessageStreamError Http3MessageFrame
receive s f =
    let t = frame_type f in
    let refused = err (unexpected_frame t s.position) in
    if t == type_headers
    then (if is_trailers s.position then refused else (do
      headers ← map_err (frame_payload t) (headers_from_frame f)
      ok (headers_message (record { state = s; headers = headers }))))
    else if t == type_data
    then (if is_content s.position
        then (do d ← map_err (frame_payload t) (data_from_frame f); ok (data_message d))
        else refused)
    else if t == type_push_promise
    then (if is_response s.kind
        then (do
          p ← map_err (frame_payload t) (push_promise_from_frame f)
          ok (push_promise_message p))
        else refused)
    else if never_on_messages t
    then refused
    else if is_http2_reserved_frame_type t
    then refused
    else ok (unknown_message f)

unfoldable pub finish : Http3MessageStreamState → Result Http3MessageStreamError (Unit {0})
finish s = elim s.position [
  | content ↦ ok tt
  | trailers ↦ ok tt
  | before_headers ↦ err (incomplete_message s.kind s.position)
  | before_final_response ↦ err (incomplete_message s.kind s.position)
]

unfoldable pub next_position :
    Http3MessageStreamKind
    → Http3MessagePosition
    → Http3HeadersKind
    → Result Http3MessageStreamError Http3MessagePosition
next_position request_stream before_headers request_section = ok content
next_position request_stream content trailer_section = ok trailers
next_position response_stream before_final_response informational_section = ok before_final_response
next_position push_stream before_final_response informational_section = ok before_final_response
next_position response_stream before_final_response final_section = ok content
next_position push_stream before_final_response final_section = ok content
next_position response_stream content trailer_section = ok trailers
next_position push_stream content trailer_section = ok trailers
next_position stream_kind position section_kind =
    err (invalid_header_section stream_kind position section_kind)

-- Http3PendingHeaders::accept, and the state after it.
unfoldable pub accept :
    Http3PendingHeaders
    → Http3HeadersKind
    → Http3MessageStreamState × Result Http3MessageStreamError Http3Headers
accept p section_kind = elim (next_position p.state.kind p.state.position section_kind) [
  | ok next ↦ (record { kind = p.state.kind; position = next }, ok p.headers)
  | err e ↦ (p.state, err e)
]
