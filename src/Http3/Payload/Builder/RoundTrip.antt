-- ===== src/Http3/Payload/Builder/RoundTrip.antt =====
-- src/http3/frame/goaway.rs and push.rs: the builders of frames that carry one integer, and their
-- readers.
use net_wire_rs.Common.{
  ℕ, ◌+◌, ◌≤◌, ◌<◌, ◌^◌, List, [], ◌++◌, some, length, take, drop, ◌≡◌, refl, ap, sym, subst, ◌∙◌,
  arith, append-nil,
}
use net_wire_rs.Common.{Option, true, ◌==◌, eq→==}
use net_wire_rs.Common.Result.{Result, ok, word}
use net_wire_rs.Common.Slices.{take-length_eq}
use net_wire_rs.Packed.{◌>>=◌, copy_from_slice}
use net_wire_rs.Quic.Varint.{QuicVarInt, canonical_len, byte_len}
use net_wire_rs.Quic.Varint.{parse as parse_varint}
use net_wire_rs.Quic.Varint.RoundTrip.{parse-encode}
use net_wire_rs.Http3.Frame.{
  Http3Frame, frame_type, payload, new_plan, write_header, write_frame, finish,
  Http3FrameEnvelopePlan,
}
use net_wire_rs.Http3.Frame.{parse as parse_frame, build as build_frame}
use net_wire_rs.Http3.Frame.RoundTrip.{
  short, size, spare, fits, length-short, size_le, build_eight, plan, new_plan-ok, wire, view,
  write_frame-plan, finish-plan, parse-build_frame, payload-view,
}
use net_wire_rs.Http3.Payload.{
  Http3FramePayloadField, parse_exact_varint, type_goaway, type_cancel_push, type_max_push_id,
  goaway_from_frame, cancel_push_from_frame, max_push_id_from_frame, push_id_field,
  goaway_identifier_field,
}
use net_wire_rs.Http3.Payload.Builder.{
  EncodedVarInt, encoded_bytes, encode_varint, build_integer_frame, build_goaway, build_cancel_push,
  build_max_push_id,
}

abbrev pub integer : ℕ → QuicVarInt
integer v = record { bytes = short v; value = v; length_of = canonical_len v }

abbrev pub encoded : ℕ → EncodedVarInt
encoded v = record { buffer = short v ++ spare v; len = canonical_len v }

pub encode_varint-ok : (v : ℕ) → v < 2 ^ 62 → encode_varint v ≡ ok (encoded v)
unfolding encode_varint
encode_varint-ok v h = rw (build_eight v h, encode_varint)

pub encoded_bytes-short : (v : ℕ) → v < 2 ^ 62 → encoded_bytes (encoded v) ≡ short v
encoded_bytes-short v h = take-length_eq (size v) (short v) (spare v) (length-short v h)

-- The branch of the builder that writes.
build_integer_frame-writes :
    (ty : ℕ) (field : Http3FramePayloadField) (destination : List ℕ) (v : ℕ) {enc : EncodedVarInt}
    {p : Http3FrameEnvelopePlan} {bytes : List ℕ}
    → encode_varint v ≡ ok enc
    → new_plan ty (byte_len enc.len) (length destination) ≡ ok p
    → (write_header p (take p.required destination)
        >>= (λ headed. copy_from_slice headed p.header_length (length headed) (encoded_bytes enc)))
      ≡ some bytes
    → build_integer_frame ty field destination v
      ≡ some (
        bytes ++ drop p.required destination,
        ok (
          finish p bytes,
          record {
            bytes = take (byte_len enc.len) (payload (finish p bytes));
            value = v;
            length_of = enc.len;
          },
        ),
      )
unfolding build_integer_frame
build_integer_frame-writes ty field destination v e g h = rw (e, g, h, build_integer_frame) refl

-- The room that a frame with one integer takes.
abbrev pub room : ℕ → ℕ → ℕ
room ty v = size ty + size (size v) + size v

module _ (ty v : ℕ) (field : Http3FramePayloadField) (destination : List ℕ) (ht : ty < 2 ^ 62)
    (hv : v < 2 ^ 62) (enough : room ty v ≤ length destination)
    (u64 : length destination < word) where
  len : length (short v) ≡ size v
  len = length-short v hv

  small : length (short v) < 2 ^ 62
  small = rw len (omega (arith, size_le v hv))

  room_short : size ty + size (length (short v)) + length (short v) ≤ length destination
  room_short = rw len enough

  -- The frame that the builder of raw frames makes of the integer's bytes.
  build_integer_frame-build :
      (dst : List ℕ) (f : Http3Frame)
      → build_frame
          (record { destination = destination; builder_type = ty; builder_payload = short v })
        ≡ some (dst, ok f)
      → payload f ≡ short v
      → build_integer_frame ty field destination v ≡ some (dst, ok (f, integer v))
  unfolding build_frame build_integer_frame write_frame
  build_integer_frame-build dst f e cut =
      let n = length (short v) in
      let w = wire ty (short v) ht small in
      let back = drop (room ty v) destination in
      let planned = new_plan-ok ty n (length destination) ht small room_short u64 in
      let planned' : new_plan ty (size v) (length destination) ≡ ok (plan ty (size v)) =
        subst (λ (k : ℕ). new_plan ty k (length destination) ≡ ok (plan ty k)) len planned in
      let written = write_frame-plan ty (short v) ht small destination room_short in
      let written' : (write_header (plan ty (size v)) (take (room ty v) destination) >>= (λ headed.
        copy_from_slice headed (size ty + size (size v)) (length headed)
          (encoded_bytes (encoded v))))
          ≡ some w =
        subst
          (λ (x : List ℕ).
            (write_header (plan ty (size v)) (take (room ty v) destination)
              >>= (λ headed. copy_from_slice headed (size ty + size (size v)) (length headed) x))
            ≡ some w)
          (sym (encoded_bytes-short v hv))
          (subst
            (λ (k : ℕ).
              (write_header (plan ty k) (take (size ty + size k + k) destination)
                >>= (λ headed. copy_from_slice headed (size ty + size k) (length headed) (short v)))
              ≡ some w)
            len written) in
      let made : finish (plan ty (size v)) w ≡ view ty (short v) ht small =
        subst (λ (k : ℕ). finish (plan ty k) w ≡ view ty (short v) ht small) len
          (finish-plan ty (short v) ht small) in
      let bytes : take (size v) (payload (view ty (short v) ht small)) ≡ short v =
        ap (take (size v)) (payload-view ty (short v) ht small)
        ∙ ap (take (size v)) (sym (append-nil (short v)))
        ∙ take-length_eq (size v) (short v) [] len in
      let this : build_integer_frame ty field destination v
          ≡ some (w ++ back, ok (view ty (short v) ht small, integer v)) =
        build_integer_frame-writes ty field destination v (encode_varint-ok v hv) planned' written'
        ∙ rw (made, bytes) refl in
      let that : some
            (w ++ drop (size ty + size n + n) destination, ok (view ty (short v) ht small))
          ≡ some (dst, ok f) =
        rw (build_frame, planned, written, finish-plan ty (short v) ht small) at e in
      let same : w ++ drop (size ty + size n + n) destination ≡ w ++ back =
        ap (λ (k : ℕ). w ++ drop (size ty + size k + k) destination) len in
      cc (this, that, same)

size_small : (k : ℕ) → k ≤ 63 → size k ≡ 1
unfolding canonical_len
size_small k h = ground arith

-- An exact integer is read back.
parse_exact_varint-short :
    (v : ℕ) (field : Http3FramePayloadField) (bytes : List ℕ)
    → v < 2 ^ 62
    → bytes ≡ short v
    → parse_exact_varint bytes field ≡ ok (integer v)
parse_exact_varint-short v field bytes hv e =
    let read : parse_varint (short v) ≡ ok (integer v) =
      ap parse_varint (sym (append-nil (short v)))
      ∙ parse-encode (canonical_len v) v [] (fits v hv) in
    let exact : (size v == length (short v)) ≡ true =
      eq→== (size v) (length (short v)) (sym (length-short v hv)) in
    rw (e, read, exact) refl

-- A builder succeeds without a panic, its view carries the canonical integer of the number it was
-- given, and the frame that is read from the destination gives the same view; the destination's
-- length and the bytes behind the frame are as they were.
abbrev pub ReadsBack {ℓ κ μ} :
    {V : Type ℓ} {E : Type κ} {F : Type μ}
    → Option (List ℕ × Result E V)
    → (V → Http3Frame)
    → (V → QuicVarInt)
    → (Http3Frame → Result F V)
    → ℕ
    → List ℕ
    → ℕ
    → Type (ℓ ⊔ κ ⊔ μ)
ReadsBack {V = V} built frame_of integer_of read v destination maximum =
    (dst : List ℕ) × (seen : V) × (built ≡ some (dst, ok seen))
    × (integer_of seen ≡ integer v)
    × (parse_frame dst maximum ≡ ok (frame_of seen))
    × (read (frame_of seen) ≡ ok seen)
    × (length dst ≡ length destination)
    × (drop (length (frame_of seen).bytes) dst ≡ drop (length (frame_of seen).bytes) destination)

module _ (v maximum : ℕ) (destination : List ℕ) (hv : v < 2 ^ 62)
    (enough : 2 + size v ≤ length destination) (u64 : length destination < word)
    (allowed : size v ≤ maximum) where
  -- What each of the three builders makes.
  integer_frame :
      (ty : ℕ) (field : Http3FramePayloadField)
      → ty ≤ 63
      → (dst : List ℕ) × (f : Http3Frame) × (build_integer_frame ty field destination v
          ≡ some (dst, ok (f, integer v)))
        × (frame_type f ≡ ty)
        × (parse_exact_varint (payload f) field ≡ ok (integer v))
        × (parse_frame dst maximum ≡ ok f)
        × (length dst ≡ length destination)
        × (drop (length f.bytes) dst ≡ drop (length f.bytes) destination)
  integer_frame ty field h =
      let needed : room ty v ≤ length destination =
        omega (arith, size_small ty h, size_small (size v) (omega (arith, size_le v hv))) in
      let n = length-short v hv in
      let room' = room_short ty v field destination (omega arith) hv needed u64 in
      let (dst, f, built, kind, cut, read, same, rest) =
        parse-build_frame
          (record { destination = destination; builder_type = ty; builder_payload = short v })
          maximum (omega arith) (omega (arith, size_le v hv)) room' u64 (omega arith) in
      (
        dst,
        f,
        build_integer_frame-build ty v field destination (omega arith) hv needed u64 dst f built
            cut,
        kind,
        parse_exact_varint-short v field (payload f) hv cut,
        read,
        same,
        rest,
      )

  -- For a 62-bit number, a destination with room whose length is a u64, and a maximum that allows
  -- the number, each of the builders of GOAWAY, CANCEL_PUSH and MAX_PUSH_ID panics nowhere and
  -- succeeds, its view carries this number as its canonical integer, and the frame that is read
  -- from the destination is of the right type and gives the same view; the length of the
  -- destination is the same, and the bytes behind the frame are those that were there.
  pub goaway_push-ReadsBack :
      ReadsBack
        (build_goaway destination v)
        (λ g. g.goaway_frame)
        (λ g. g.identifier)
        goaway_from_frame
        v
        destination
        maximum
      × ReadsBack
          (build_cancel_push destination v)
          (λ c. c.cancel_push_frame)
          (λ c. c.cancelled)
          cancel_push_from_frame
          v
          destination
          maximum
      × ReadsBack
          (build_max_push_id destination v)
          (λ m. m.max_push_id_frame)
          (λ m. m.push_id)
          max_push_id_from_frame
          v
          destination
          maximum
  unfolding build_goaway build_cancel_push build_max_push_id goaway_from_frame
      cancel_push_from_frame max_push_id_from_frame
  goaway_push-ReadsBack =
      let (d, f, e, k, x, p, l, r) =
        integer_frame type_goaway goaway_identifier_field (omega arith) in
      let (d', f', e', k', x', p', l', r') =
        integer_frame type_cancel_push push_id_field (omega arith) in
      let (d'', f'', e'', k'', x'', p'', l'', r'') =
        integer_frame type_max_push_id push_id_field (omega arith) in
      (
        (
          d,
          record { goaway_frame = f; identifier = integer v },
          rw (build_goaway, e) refl,
          refl,
          p,
          rw (goaway_from_frame, k, x) refl,
          l,
          r,
        ),
        (
          d',
          record { cancel_push_frame = f'; cancelled = integer v },
          rw (build_cancel_push, e') refl,
          refl,
          p',
          rw (cancel_push_from_frame, k', x') refl,
          l',
          r',
        ),
        (
          d'',
          record { max_push_id_frame = f''; push_id = integer v },
          rw (build_max_push_id, e'') refl,
          refl,
          p'',
          rw (max_push_id_from_frame, k'', x'') refl,
          l'',
          r'',
        ),
      )
