-- ===== src/Http3/Frame/RoundTrip.antt =====
-- `parse` and `build` of src/http3/frame/envelope.rs together.
use net_wire_rs.Common.{ℕ, ◌+◌, ◌≤◌, ◌<◌, ◌^◌, length, take, drop, arith}
use net_wire_rs.Common.{List, [], ◌++◌, some, ◌≡◌, refl, ap, sym, ◌∙◌, append_assoc, append-nil}
use net_wire_rs.Common.{
  length-append, length-take, length-drop, take-append, drop-append, drop-drop, drop_all,
}
use net_wire_rs.Common.Result.{ok, word}
use net_wire_rs.Packed.{copy_from_slice}
use net_wire_rs.Packed.Insert.{copy_from_slice-some}
use net_wire_rs.Quic.Varint.{QuicVarIntLen, eight, byte_len, max_value, canonical_len, encode}
use net_wire_rs.Quic.Varint.{parse as parse_varint, build as build_varint}
use net_wire_rs.Quic.Varint.Build.{length-encode, canonical_len-shortest}
use net_wire_rs.Quic.Varint.RoundTrip.{parse-encode, build-eq_ok}
use net_wire_rs.Http3.Frame.{
  Http3Frame, frame_type, payload, frame_length, parse, parse_body, plan_lengths, new_plan,
  write_header, write_frame, finish, Http3FrameBuilder, Http3FrameEnvelopePlan, build,
  eight_byte_builder,
}

drop-length_eq : (n : ℕ) (xs ys : List ℕ) → length xs ≡ n → drop n (xs ++ ys) ≡ ys
drop-length_eq n xs ys e = rw (← e) (drop-append xs ys)

take-length_eq : (n : ℕ) (xs ys : List ℕ) → length xs ≡ n → take n (xs ++ ys) ≡ xs
take-length_eq n xs ys e = rw (← e) (take-append xs ys)

-- A slice copied behind what stands already.
pub put :
    (front rest xs : List ℕ) (at end : ℕ)
    → length front ≡ at
    → at + length xs ≡ end
    → length xs ≤ length rest
    → copy_from_slice (front ++ rest) at end xs ≡ some (front ++ (xs ++ drop (length xs) rest))
put front rest xs at end a e h =
    let size = length-append front rest in
    let back : drop end (front ++ rest) ≡ drop (length xs) rest =
      ap (λ (k : ℕ). drop k (front ++ rest)) (sym e)
      ∙ sym (drop-drop (length xs) at (front ++ rest))
      ∙ ap (drop (length xs)) (drop-length_eq at front rest a) in
    copy_from_slice-some (front ++ rest) at end xs (omega arith) e
    ∙ rw (back, take-length_eq at front rest a)

-- The bytes of an integer at its canonical width.
abbrev pub short : ℕ → List ℕ
short v = encode (canonical_len v) v

abbrev pub size : ℕ → ℕ
size v = byte_len (canonical_len v)

pub fits : (v : ℕ) → v < 2 ^ 62 → v ≤ max_value (canonical_len v)
fits v h = (canonical_len-shortest v eight h (omega arith)).0

pub length-short : (v : ℕ) → v < 2 ^ 62 → length (short v) ≡ size v
length-short v h = length-encode (canonical_len v) v (fits v h)

pub size_le : (v : ℕ) → v < 2 ^ 62 → size v ≤ 8
size_le v h = (canonical_len-shortest v eight h (omega arith)).1

abbrev pub spare : ℕ → List ℕ
spare v = drop (size v) (eight_byte_builder v).destination

pub build_eight :
    (v : ℕ)
    → v < 2 ^ 62
    → build_varint (eight_byte_builder v) ≡ (
      short v ++ spare v,
      ok (record { bytes = short v; value = v; length_of = canonical_len v }),
    )
build_eight v h = build-eq_ok (eight_byte_builder v) (fits v h) (size_le v h)

abbrev pub plan : ℕ → ℕ → Http3FrameEnvelopePlan
plan ty n = record {
  plan_type = ty;
  payload_length = n;
  type_bytes = short ty ++ spare ty;
  type_length = canonical_len ty;
  length_bytes = short n ++ spare n;
  length_length = canonical_len n;
  header_length = size ty + size n;
  required = size ty + size n + n;
}

plan_lengths-ok :
    (t l : QuicVarIntLen) (n available : ℕ)
    → byte_len t + byte_len l + n ≤ available
    → available < word
    → plan_lengths t l n available ≡ ok (byte_len t + byte_len l, byte_len t + byte_len l + n)
unfolding plan_lengths
plan_lengths-ok t l n available h k = ground arith

pub new_plan-ok :
    (ty n available : ℕ)
    → ty < 2 ^ 62
    → n < 2 ^ 62
    → size ty + size n + n ≤ available
    → available < word
    → new_plan ty n available ≡ ok (plan ty n)
unfolding new_plan
new_plan-ok ty n available ht hn h k = rw (
  build_eight ty ht,
  build_eight n hn,
  plan_lengths-ok (canonical_len ty) (canonical_len n) n available h k,
  new_plan,
)

module _ (ty : ℕ) (p : List ℕ) (ht : ty < 2 ^ 62) (hn : length p < 2 ^ 62) where
  abbrev n : ℕ
  n = length p

  -- The frame's bytes.
  abbrev pub wire : List ℕ
  wire = short ty ++ (short (length p) ++ p)

  pub length-wire : length wire ≡ size ty + size n + n
  length-wire = omega (
    arith,
    length-append (short ty) (short n ++ p),
    length-append (short n) p,
    length-short ty ht,
    length-short n hn,
  )

  write_header-plan :
      (d : List ℕ)
      → length d ≡ size ty + size n + n
      → write_header (plan ty n) d
        ≡ some ((short ty ++ short n) ++ drop (size n) (drop (size ty) d))
  unfolding write_header
  write_header-plan d h =
      let lt = length-short ty ht in
      let ln = length-short n hn in
      let ld = length-drop (size ty) d in
      let type_part : take (size ty) (short ty ++ spare ty) ≡ short ty =
        take-length_eq _ (short ty) (spare ty) lt in
      let len_part : take (size n) (short n ++ spare n) ≡ short n =
        take-length_eq _ (short n) (spare n) ln in
      let first : copy_from_slice d 0 (size ty) (short ty) ≡ some (short ty ++ drop (size ty) d) =
        put [] d (short ty) 0 (size ty) refl (omega arith) (omega arith) ∙ rw lt in
      let second =
        put (short ty) (drop (size ty) d) (short n) (size ty) (size ty + size n) lt (omega arith)
          (omega arith) in
      rw (type_part, len_part, first)
        (second ∙ rw ln (ap some (sym (append_assoc (short ty) (short n) _))))

  pub write_frame-plan :
      (dst : List ℕ)
      → size ty + size n + n ≤ length dst
      → write_frame
          (record { destination = dst; builder_type = ty; builder_payload = p })
          (plan ty n)
        ≡ some wire
  unfolding write_frame
  write_frame-plan dst h =
      let d = take (size ty + size n + n) dst in
      let ld : length d ≡ size ty + size n + n =
        omega (arith, length-take (size ty + size n + n) dst) in
      let rest = drop (size n) (drop (size ty) d) in
      let lr : length rest ≡ n =
        omega (arith, length-drop (size n) (drop (size ty) d), length-drop (size ty) d) in
      let head = short ty ++ short n in
      let lh : length head ≡ size ty + size n =
        omega (arith, length-append (short ty) (short n), length-short ty ht, length-short n hn) in
      let whole : length (head ++ rest) ≡ size ty + size n + n =
        omega (arith, length-append head rest) in
      let gone : drop n rest ≡ [] = drop_all n rest (omega arith) in
      rw (write_header-plan d ld) (
        put head rest p (size ty + size n) (length (head ++ rest)) lh (omega arith) (omega arith)
        ∙ rw (gone, append-nil) (ap some (append_assoc (short ty) (short n) p)))

  abbrev pub view : Http3Frame
  view = record {
    bytes = wire;
    type_varint = record { bytes = short ty; value = ty; length_of = canonical_len ty };
    length_varint = record {
      bytes = short (length p);
      value = length p;
      length_of = canonical_len (length p);
    };
  }

  pub finish-plan : finish (plan ty n) wire ≡ view
  unfolding finish
  finish-plan =
      let first = take-length_eq (size ty) (short ty) (short n ++ p) (length-short ty ht) in
      let back = drop-length_eq (size ty) (short ty) (short n ++ p) (length-short ty ht) in
      let second = take-length_eq (size n) (short n) p (length-short n hn) in
      rw (first, back, second) refl

  frame_length-ok :
      (t l : QuicVarIntLen) (maximum available : ℕ)
      → n ≤ maximum
      → byte_len t + byte_len l + n ≤ available
      → available < word
      → frame_length (byte_len t) (byte_len l) n maximum available
        ≡ ok (byte_len t + byte_len l + n)
  unfolding frame_length
  frame_length-ok t l maximum available h k w = ground arith

  -- `parse` finds the frame, whatever follows it.
  pub parse-frame :
      (more : List ℕ) (maximum : ℕ)
      → length p ≤ maximum
      → length (wire ++ more) < word
      → parse (wire ++ more) maximum ≡ ok view
  unfolding parse parse_body
  parse-frame more maximum h k =
      let flat : wire ++ more ≡ short ty ++ (short n ++ (p ++ more)) =
        append_assoc (short ty) (short n ++ p) more
        ∙ ap (λ (t : List ℕ). short ty ++ t) (append_assoc (short n) p more) in
      let first : parse_varint (wire ++ more) ≡ ok (view.type_varint) =
        rw flat (parse-encode (canonical_len ty) ty (short n ++ (p ++ more)) (fits ty ht)) in
      let back : drop (size ty) (wire ++ more) ≡ short n ++ (p ++ more) =
        rw flat
          (drop-length_eq (size ty) (short ty) (short n ++ (p ++ more)) (length-short ty ht)) in
      let second = parse-encode (canonical_len n) n (p ++ more) (fits n hn) in
      let room : size ty + size n + n ≤ length (wire ++ more) =
        omega (arith, length-append wire more, length-wire) in
      let total =
        frame_length-ok (canonical_len ty) (canonical_len n) maximum (length (wire ++ more)) h room
          k in
      let cut = take-length_eq (size ty + size n + n) wire more length-wire in
      rw (first, back, second, total, cut, parse, parse_body) refl

  pub payload-view : payload view ≡ p
  payload-view =
      sym (drop-drop (size n) (size ty) wire)
      ∙ ap (drop (size n)) (drop-length_eq (size ty) (short ty) (short n ++ p) (length-short ty ht))
      ∙ drop-length_eq (size n) (short n) p (length-short n hn)

-- For a type and a payload length of at most 62 bits, a destination with room whose length is a
-- u64, and a maximum that allows the payload, building an HTTP/3 frame panics nowhere and succeeds
-- with this type and payload, `parse` reads the same frame back from the destination, the length
-- of the destination is the same, and the bytes behind the frame are those that were there.
pub parse-build_frame :
    (b : Http3FrameBuilder) (maximum : ℕ)
    → b.builder_type < 2 ^ 62
    → length b.builder_payload < 2 ^ 62
    → size b.builder_type + size (length b.builder_payload) + length b.builder_payload
      ≤ length b.destination
    → length b.destination < word
    → length b.builder_payload ≤ maximum
    → (dst : List ℕ) × (f : Http3Frame) × (build b ≡ some (dst, ok f))
      × (frame_type f ≡ b.builder_type)
      × (payload f ≡ b.builder_payload)
      × (parse dst maximum ≡ ok f)
      × (length dst ≡ length b.destination)
      × (drop (length f.bytes) dst ≡ drop (length f.bytes) b.destination)
unfolding build
parse-build_frame b maximum ht hn room u64 allowed =
    let ty = b.builder_type in
    let p = b.builder_payload in
    let required = size ty + size (length p) + length p in
    let w = wire ty p ht hn in
    let back = drop required b.destination in
    let len : length (w ++ back) ≡ length b.destination =
      omega
        (arith, length-append w back, length-wire ty p ht hn, length-drop required b.destination) in
    let planned = new_plan-ok ty (length p) (length b.destination) ht hn room u64 in
    let written = write_frame-plan ty p ht hn b.destination room in
    (
      w ++ back,
      view ty p ht hn,
      rw (planned, written, finish-plan ty p ht hn, build),
      refl,
      payload-view ty p ht hn,
      parse-frame ty p ht hn back maximum allowed (rw len u64),
      len,
      drop-append w back ∙ rw (length-wire ty p ht hn),
    )
