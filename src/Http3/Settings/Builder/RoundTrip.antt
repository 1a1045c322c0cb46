-- ===== src/Http3/Settings/Builder/RoundTrip.antt =====
-- src/http3/settings.rs: the builder and the reader together.
use net_wire_rs.Common.{
  ℕ, ◌+◌, ◌<◌, ◌≤◌, ◌^◌, List, [], some, length, drop, ◌≡◌, refl, ap, ◌∙◌, arith, le→ltb,
}
use net_wire_rs.Common.Slices.{take-length_eq}
use net_wire_rs.Common.Result.{ok, word}
use net_wire_rs.Http3.Frame.{payload}
use net_wire_rs.Http3.Frame.{parse as parse_frame}
use net_wire_rs.Http3.Frame.RoundTrip.{size, parse-build_frame}
use net_wire_rs.Http3.Payload.{type_settings}
use net_wire_rs.Http3.Settings.{
  Http3Settings, settings_from_frame, settings_of, validate_settings, validate_semantics,
  default_settings,
}
use net_wire_rs.Http3.Settings.Validation.{with_values}
use net_wire_rs.Http3.Settings.Builder.{
  Http3SettingsBuilder, validate_outbound, validate_outbound_settings, build_around, build,
}
use net_wire_rs.Http3.Settings.Builder.Written.{
  payload_of, AreSendable, validate_outbound-ok, write_settings-ok,
}
use net_wire_rs.Http3.Settings.Builder.Received.{
  all_received, items-all_received, validate_remaining-ok, all_received-AreAcceptable,
  validate_loop-AreAcceptable,
}

-- A workspace with room makes `build` frame the payload.
pub build-around :
    (b : Http3SettingsBuilder)
    → AreSendable [] b.outbound
    → length (payload_of b.outbound) ≤ length b.payload_scratch
    → length (payload_of b.outbound) < word
    → build b ≡ build_around b.settings_destination (payload_of b.outbound)
unfolding build validate_outbound_settings
build-around b h room u64 =
    let body = payload_of b.outbound in
    let valid : validate_outbound 0 [] b.outbound ≡ ok (length body) =
      validate_outbound-ok 0 [] b.outbound h (omega arith) ∙ ap ok (omega arith) in
    rw
      (
        valid,
        le→ltb (length b.payload_scratch) (length body) room,
        write_settings-ok [] b.payload_scratch [] b.outbound h room,
        take-length_eq (length body) body (drop (length body) b.payload_scratch) refl,
        build,
      )
      refl

-- For settings with 62-bit identifiers and values of which none is reserved for HTTP/2 and none
-- repeated, a payload length of at most 62 bits, a workspace and a destination with room, a
-- destination length that is a u64 and a maximum that allows the payload, `build` panics nowhere
-- and succeeds, and the reader parses the same frame back from the destination, accepts it,
-- iterates exactly these settings, and validates them to the defaults with their values; the
-- length of the destination is the same, and the bytes behind the frame are those that were there.
pub parse-build_settings :
    (b : Http3SettingsBuilder) (maximum : ℕ)
    → AreSendable [] b.outbound
    → length (payload_of b.outbound) < 2 ^ 62
    → length (payload_of b.outbound) ≤ length b.payload_scratch
    → size type_settings + size (length (payload_of b.outbound)) + length (payload_of b.outbound)
      ≤ length b.settings_destination
    → length b.settings_destination < word
    → length (payload_of b.outbound) ≤ maximum
    → (dst : List ℕ) × (s : Http3Settings) × (build b ≡ some (dst, ok s))
      × (parse_frame dst maximum ≡ ok s.settings_frame)
      × (settings_from_frame s.settings_frame ≡ ok s)
      × (settings_of s ≡ all_received b.outbound)
      × (validate_semantics s ≡ ok (with_values default_settings (all_received b.outbound)))
      × (length dst ≡ length b.settings_destination)
      × (drop (length s.settings_frame.bytes) dst
          ≡ drop (length s.settings_frame.bytes) b.settings_destination)
unfolding build_around settings_from_frame validate_settings settings_of validate_semantics
    all_received
parse-build_settings b maximum h n scratch room u64 allowed =
    let body = payload_of b.outbound in
    let (dst, f, built, ty, pay, read, len, rest) =
      parse-build_frame
        (record {
          destination = b.settings_destination;
          builder_type = type_settings;
          builder_payload = body;
        })
        maximum (omega arith) n room u64 allowed in
    let s : Http3Settings = record { settings_frame = f } in
    let seen : settings_of s ≡ all_received b.outbound =
      items-all_received (length (payload f)) (payload f) [] b.outbound h pay (omega arith) in
    let valid =
      validate_remaining-ok (length (payload f)) (payload f) (payload f) [] b.outbound (omega arith)
        h pay in
    (
      dst,
      s,
      build-around b h scratch (omega arith) ∙ rw (built, build_around) refl,
      read,
      rw (ty, valid, settings_from_frame) refl,
      seen,
      rw seen (
          validate_loop-AreAcceptable default_settings 0 [] (all_received b.outbound)
            (all_received-AreAcceptable [] b.outbound h)),
      len,
      rest,
    )
