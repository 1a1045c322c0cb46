-- ===== src/Tests/Http3.antt =====
-- src/http3 on small frames.
use net_wire_rs.Common.{ℕ, List, [], ◌∷◌, map, none, some, length, drop, ◌≡◌, refl, inl, inr, arith}
use net_wire_rs.Common.Result.{ok, err}
use net_wire_rs.Quic.Varint.{QuicVarInt, one, canonical_len}
use net_wire_rs.Quic.Varint.{parse as parse_varint}
use net_wire_rs.Http3.Frame.{
  Http3Frame, Http3FrameBuilder, frame_type, payload, parse, parse_body, frame_length, build,
  incomplete_payload,
}
use net_wire_rs.Http3.Frame.RoundTrip.{parse-build_frame}
use net_wire_rs.Http3.Payload.{goaway_from_frame, headers_from_frame, data_from_frame}
use net_wire_rs.Http3.Message.{
  request_stream, Http3MessageStreamState, trailers, before_headers, request_section,
  trailer_section, unexpected_frame, new, finish, next_position,
}
use net_wire_rs.Http3.Message.Complete.{feeds_complete}
use net_wire_rs.Http3.Message.Grammar.{
  requested, extends, trailed, Item, feed, feeds, symbols, IsMessage, feeds-IsMessage,
}
use net_wire_rs.Http3.Control.{
  SettingsReader, Http3ControlStreamState, client, new_control, receive_control, receive_settings,
  receive_settled, receive_goaway, accept_goaway, missing_settings,
}
use net_wire_rs.Http3.Control.Order.{Advances, run}
use net_wire_rs.Http3.Control.Accepted.{
  goaway_rule, push_rule, Follows, goaway_verdict, push_verdict, responses, run-Follows, unrelated,
  taken, refused_after,
}

abbrev small : ℕ → QuicVarInt
small n = record { bytes = n ∷ []; value = n; length_of = one }

-- A frame with one-byte type and length.
abbrev frame : ℕ → List ℕ → Http3Frame
frame t p = record {
  bytes = t ∷ (length p ∷ p);
  type_varint = small t;
  length_varint = small (length p);
}

parse-data : parse (0 ∷ 2 ∷ 7 ∷ 8 ∷ 9 ∷ []) 100 ≡ ok (frame 0 (7 ∷ 8 ∷ []))
unfolding parse parse_body frame_length parse_varint
parse-data = refl

parse-data_short : parse (0 ∷ 2 ∷ 7 ∷ []) 100 ≡ err (incomplete_payload 4 3)
unfolding parse parse_body frame_length parse_varint
parse-data_short = refl

abbrev builder : Http3FrameBuilder
builder = record {
  destination = 1 ∷ 1 ∷ 1 ∷ 1 ∷ 1 ∷ [];
  builder_type = 0;
  builder_payload = 7 ∷ 8 ∷ [];
}

parse-build_frame_example :
    (dst : List ℕ) × (f : Http3Frame) × (build builder ≡ some (dst, ok f))
    × (frame_type f ≡ builder.builder_type)
    × (payload f ≡ 7 ∷ 8 ∷ [])
    × (parse dst 100 ≡ ok f)
    × (length dst ≡ length builder.destination)
    × (drop (length f.bytes) dst ≡ drop (length f.bytes) builder.destination)
parse-build_frame_example =
    parse-build_frame builder 100 (omega arith) (omega arith) (unfold canonical_len in omega arith)
      (omega arith) (omega arith)

-- A request with one DATA frame, an extension frame and trailers.
abbrev request : List Item
request =
    (frame 1 [], request_section)
    ∷ (frame 0 (7 ∷ []), request_section)
    ∷ (frame 0x21 [], request_section)
    ∷ (frame 1 [], trailer_section)
    ∷ []

abbrev done : Http3MessageStreamState
done = record { kind = request_stream; position = trailers }

request_fed : feeds (new request_stream) request ≡ ok done
unfolding feeds feed headers_from_frame data_from_frame next_position
request_fed = refl

feeds-IsMessage_example : IsMessage request_stream (symbols request)
feeds-IsMessage_example =
    feeds-IsMessage request_stream request done request_fed (unfold finish in refl)

-- The same without the extension frame.
abbrev parts : List Item
parts =
    (frame 1 [], request_section)
    ∷ (frame 0 (7 ∷ []), request_section)
    ∷ (frame 1 [], trailer_section)
    ∷ []

parts-IsMessage : IsMessage request_stream (symbols parts)
unfolding symbols
parts-IsMessage = requested (extends trailed)

feeds_complete_example :
    (t : Http3MessageStreamState) × (feeds (new request_stream) parts ≡ ok t) × (finish t ≡ ok tt)
feeds_complete_example =
    feeds_complete request_stream parts (inl refl, (inr refl, (inl refl, tt))) parts-IsMessage

early_data :
    feed (new request_stream) (frame 0 [], request_section)
    ≡ (new request_stream, err (unexpected_frame 0 before_headers))
unfolding feed
early_data = refl

-- A reader that takes every SETTINGS payload.
abbrev any_settings : SettingsReader
any_settings = record {
  Http3Settings = Http3Frame;
  Http3PeerSettings = ℕ;
  Http3SettingsSemanticError = Unit;
  from_frame = λ f. ok f;
  validate_semantics = λ f. ok (length f.bytes);
}

-- SETTINGS, then GOAWAY 8, a refused GOAWAY 12, and GOAWAY 4.
abbrev history : List Http3Frame
history = frame 4 [] ∷ frame 7 (8 ∷ []) ∷ frame 7 (12 ∷ []) ∷ frame 7 (4 ∷ []) ∷ []

abbrev start : Http3ControlStreamState any_settings
start = new_control any_settings client

run-Follows_example :
    Advances any_settings start (run any_settings start history)
    × Follows
        (goaway_rule client)
        none
        (map (goaway_verdict any_settings) (responses any_settings start history))
        (run any_settings start history).last_goaway_identifier
    × Follows
        (push_rule client)
        none
        (map (push_verdict any_settings) (responses any_settings start history))
        (run any_settings start history).maximum_push_id
run-Follows_example = run-Follows any_settings start history

goaway_verdicts :
    map (goaway_verdict any_settings) (responses any_settings start history)
    ≡ unrelated ∷ taken 8 ∷ refused_after 8 12 ∷ taken 4 ∷ []
unfolding responses receive_control receive_settings receive_settled receive_goaway
    goaway_from_frame parse_varint accept_goaway
goaway_verdicts = refl

goaway_first :
    receive_control any_settings (new_control any_settings client) (frame 7 (8 ∷ []))
    ≡ (new_control any_settings client, err (missing_settings 7))
unfolding receive_control
goaway_first = refl

last_goaway :
    (run any_settings (new_control any_settings client) history).last_goaway_identifier ≡ some 4
unfolding run receive_settings receive_settled receive_goaway goaway_from_frame parse_varint
    accept_goaway
last_goaway = refl
