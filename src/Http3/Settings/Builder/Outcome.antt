-- ===== src/Http3/Settings/Builder/Outcome.antt =====
-- src/http3/settings.rs: what `build` refuses.
use net_wire_rs.Common.{
  ℕ, ◌+◌, ◌<◌, ◌≤◌, ◌^◌, ltb, List, [], ◌∷◌, ◌++◌, some, length, ◌≡◌, refl, ◌∙◌, ◌⊎◌, inl, inr,
  arith, lt→ltb, ltb→le, ltb→lt, Bool-cases, length-append,
}
use net_wire_rs.Common.Result.{ok, err, word, Result-cases}
use net_wire_rs.Quic.Varint.{value_too_large, max_varint, canonical_len}
use net_wire_rs.Quic.Varint.{build as build_varint}
use net_wire_rs.Http3.Frame.{
  bad_length_varint, Http3FrameBuilder, Http3FrameBuildError, new_plan, plan_lengths,
  eight_byte_builder,
}
use net_wire_rs.Http3.Frame.{build as build_frame}
use net_wire_rs.Http3.Frame.RoundTrip.{size, build_eight}
use net_wire_rs.Http3.Payload.{type_settings}
use net_wire_rs.Http3.Settings.{Http3Settings, prohibited_setting}
use net_wire_rs.Http3.Payload.Builder.RoundTrip.{encode_varint-ok}
use net_wire_rs.Http3.Payload.Builder.{encode_varint}
use net_wire_rs.Http3.Settings.Builder.{
  settings_frame_error, scratch_too_short, Http3SettingValue, Http3SettingsBuilder,
  Http3SettingsBuildError, has_outbound, encode_setting, add_setting, validate_outbound,
  validate_outbound_settings, build_around, build,
}
use net_wire_rs.Http3.Settings.Builder.Written.{
  wire_of, payload_of, AreSendable, length-wire_of, encode_setting-ok,
}
use net_wire_rs.Http3.Settings.Builder.RoundTrip.{build-around, parse-build_settings}

-- A number that does not fit 62 bits is refused.
build_eight_large :
    (v : ℕ)
    → 2 ^ 62 ≤ v
    → build_varint (eight_byte_builder v)
      ≡ ((eight_byte_builder v).destination, err (value_too_large v))
unfolding build_varint
build_eight_large v h = rw (lt→ltb max_varint v (omega arith))

encode_varint_large : (v : ℕ) → 2 ^ 62 ≤ v → encode_varint v ≡ err (value_too_large v)
unfolding encode_varint
encode_varint_large v h = rw (build_eight_large v h, encode_varint)

-- Either a number fits 62 bits or it does not.
fits_or_large : (v : ℕ) → (v < 2 ^ 62) ⊎ (2 ^ 62 ≤ v)
fits_or_large v = elim (Bool-cases (ltb v (2 ^ 62))) [
  | inl h ↦ inl (ltb→lt v (2 ^ 62) h)
  | inr h ↦ inr (ltb→le v (2 ^ 62) h)
]

-- What was added is the length of a setting that fits.
add_setting-wire :
    (index n m : ℕ) (s : Http3SettingValue)
    → add_setting index n s ≡ ok m
    → (s.sent_id < 2 ^ 62) × (s.sent_value < 2 ^ 62) × (m ≡ n + length (wire_of s)) × (m < word)
unfolding add_setting
add_setting-wire index n m s e = elim (fits_or_large s.sent_id) [
  | inr big ↦
      unfold encode_setting in
      cc (rw (add_setting, encode_setting, encode_varint_large s.sent_id big) at e)
  | inl hi ↦ elim (fits_or_large s.sent_value) [
    | inr big ↦
        unfold encode_setting in
        cc (
          rw
            (
              add_setting,
              encode_setting,
              encode_varint-ok s.sent_id hi,
              encode_varint_large s.sent_value big,
            )
            at e)
    | inl hv ↦
        let l = length-wire_of s hi hv in
        let e' = rw (add_setting, encode_setting-ok s hi hv) at e in
        (hi, hv, ground arith, ground arith)
  ]
]

validate_outbound-AreSendable :
    (n m : ℕ) (previous all : List Http3SettingValue)
    → n < word
    → validate_outbound n previous all ≡ ok m
    → AreSendable previous all × (m ≡ n + length (payload_of all)) × (m < word)
unfolding validate_outbound payload_of
validate_outbound-AreSendable n m previous [] k e =
    let same : n ≡ m = cc e in (tt, omega arith, omega arith)
validate_outbound-AreSendable n m previous (s ∷ rest) k e =
    elim (Bool-cases (prohibited_setting s.sent_id)) [
      | inl bad ↦ cc (rw (validate_outbound, bad) at e)
      | inr fine ↦ elim (Bool-cases (has_outbound s.sent_id previous)) [
        | inl again ↦ cc (rw (validate_outbound, fine, again) at e)
        | inr new ↦ elim (Result-cases (add_setting (length previous) n s)) [
          | inr (x, bad) ↦ cc (rw (validate_outbound, fine, new, bad) at e)
          | inl (next, added) ↦
              let e' = rw (validate_outbound, fine, new, added) at e in
              let (hi, hv, sum, small) = add_setting-wire (length previous) n next s added in
              let (h, total, top) =
                validate_outbound-AreSendable next m (previous ++ (s ∷ [])) rest small e' in
              (
                (hi, (hv, (fine, (new, h)))),
                omega (arith, length-append (wire_of s) (payload_of rest)),
                top,
              )
        ]
      ]
    ]

plan_lengths_short :
    (t n available : ℕ)
    → available < size t + size n + n
    → (e : Http3FrameBuildError) × (plan_lengths (canonical_len t) (canonical_len n) n available
        ≡ err e)
unfolding plan_lengths
plan_lengths_short t n available h =
    elim (Result-cases (plan_lengths (canonical_len t) (canonical_len n) n available)) [
      | inr (e, p) ↦ (e, p)
      | inl (r, p) ↦ absurd (ground arith)
    ]

-- A frame that is too large for its length field is refused.
build_frame_large :
    (b : Http3FrameBuilder)
    → b.builder_type < 2 ^ 62
    → 2 ^ 62 ≤ length b.builder_payload
    → (e : Http3FrameBuildError) × (build_frame b ≡ some (b.destination, err e))
unfolding build_frame new_plan
build_frame_large b ht big = (
  bad_length_varint (value_too_large (length b.builder_payload)),
  rw
      (
        build_frame,
        new_plan,
        build_eight b.builder_type ht,
        build_eight_large (length b.builder_payload) big,
      )
      refl,
)

-- A frame that is too large for its destination is refused.
build_frame_short :
    (b : Http3FrameBuilder)
    → b.builder_type < 2 ^ 62
    → length b.builder_payload < 2 ^ 62
    → length b.destination
      < size b.builder_type + size (length b.builder_payload) + length b.builder_payload
    → (e : Http3FrameBuildError) × (build_frame b ≡ some (b.destination, err e))
unfolding build_frame new_plan
build_frame_short b ht hn short =
    let (e, p) =
      plan_lengths_short b.builder_type (length b.builder_payload) (length b.destination) short in
    (
      e,
      rw
          (
            build_frame,
            new_plan,
            build_eight b.builder_type ht,
            build_eight (length b.builder_payload) hn,
            p,
          )
          refl,
    )

-- Settings that may be sent, with room for their payload and for their frame.
abbrev pub IsBuildable : Http3SettingsBuilder → Type 0
IsBuildable b =
    let n = length (payload_of b.outbound) in
    AreSendable [] b.outbound
    × (n < 2 ^ 62)
    × (n ≤ length b.payload_scratch)
    × (size type_settings + size n + n ≤ length b.settings_destination)

-- What `build_around` does with a payload that the workspace had room for.
framed :
    (b : Http3SettingsBuilder)
    → AreSendable [] b.outbound
    → length (payload_of b.outbound) ≤ length b.payload_scratch
    → length b.settings_destination < word
    → build b ≡ build_around b.settings_destination (payload_of b.outbound)
    → (IsBuildable b × (dst : List ℕ) × (s : Http3Settings) × (build b ≡ some (dst, ok s)))
      ⊎ ((e : Http3SettingsBuildError) × (build b ≡ some (b.settings_destination, err e)))
unfolding build_around
framed b h scratch u64 same =
    let body = payload_of b.outbound in
    let needed = size type_settings + size (length body) + length body in
    let frame : Http3FrameBuilder = record {
      destination = b.settings_destination;
      builder_type = type_settings;
      builder_payload = body;
    } in
    let refuse : ((e : Http3FrameBuildError) × (build_frame frame
            ≡ some (b.settings_destination, err e)))
        → (e : Http3SettingsBuildError) × (build b ≡ some (b.settings_destination, err e)) =
      λ (e, p). (settings_frame_error e, same ∙ rw (p, build_around) refl) in
    elim (fits_or_large (length body)) [
      | inr big ↦ inr (refuse (build_frame_large frame (omega arith) big))
      | inl n ↦ elim (Bool-cases (ltb (length b.settings_destination) needed)) [
        | inl short ↦ inr (
            refuse (
              build_frame_short frame (omega arith) n
                (ltb→lt (length b.settings_destination) needed short)))
        | inr room ↦
            let fits = ltb→le (length b.settings_destination) needed room in
            let (dst, s, built, _, _, _, _, _, _) =
              parse-build_settings b (length body) h n scratch fits u64 (omega arith) in
            inl ((h, n, scratch, fits), dst, s, built)
      ]
    ]

-- With a destination whose length is a u64, building a SETTINGS frame panics nowhere: either the
-- settings may be sent and their payload and frame have room, and the call succeeds, or it fails
-- and leaves the destination as it was.
pub build-IsBuildable :
    (b : Http3SettingsBuilder)
    → length b.settings_destination < word
    → (IsBuildable b × (dst : List ℕ) × (s : Http3Settings) × (build b ≡ some (dst, ok s)))
      ⊎ ((e : Http3SettingsBuildError) × (build b ≡ some (b.settings_destination, err e)))
unfolding build validate_outbound_settings
build-IsBuildable b u64 = elim (Result-cases (validate_outbound_settings b.outbound)) [
  | inr (e, p) ↦ inr (e, rw (build, p) refl)
  | inl (m, p) ↦
      let (h, total, top) = validate_outbound-AreSendable 0 m [] b.outbound (omega arith) p in
      elim (Bool-cases (ltb (length b.payload_scratch) m)) [
        | inl short ↦
            inr (scratch_too_short m (length b.payload_scratch), rw (build, p, short) refl)
        | inr room ↦
            let scratch : length (payload_of b.outbound) ≤ length b.payload_scratch =
              omega (arith, ltb→le (length b.payload_scratch) m room) in
            framed b h scratch u64 (build-around b h scratch (omega arith))
      ]
]
