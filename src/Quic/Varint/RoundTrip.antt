-- ===== src/Quic/Varint/RoundTrip.antt =====
-- `parse` and `build` of src/quic/varint.rs together.
use net_wire_rs.Common.{ℕ, zero, suc, ◌/◌, ◌%◌, ◌^◌, ◌<◌, ◌≤◌, ltb, ◌⊎◌, inl, inr, true}
use net_wire_rs.Common.{
  List, [], ◌∷◌, ◌++◌, All, length, take, drop, ◌≡◌, refl, ap, sym, ◌∙◌, arith, subst,
}
use net_wire_rs.Common.{
  length-append, length-take, length-drop, take-append, drop-append, ltb→le, lt→ltb, le→ltb,
  Bool-cases,
}
use net_wire_rs.Common.Result.{ok, err, is_err}
use net_wire_rs.Quic.Varint.{
  QuicVarIntLen, one, two, four, eight, byte_len, max_value, max_varint, decode, encode, be_bytes,
  QuicVarInt, from_first_byte, parse, incomplete, QuicVarIntBuilder, build, unwrap_or,
  canonical_len,
}
use net_wire_rs.Quic.Varint.Bytes.{IsByte, length-be_bytes}
use net_wire_rs.Quic.Varint.Build.{
  tail_len, first_byte, encode_lem, length-encode, top_bits, from_first_byte-first_byte,
}
use net_wire_rs.Quic.Varint.Parse.{byte_len-tail_len, decode-encode, decode-le, encode-decode}

All-take : (n : ℕ) (xs : List ℕ) → All IsByte xs → All IsByte (take n xs)
All-take zero xs h = tt
All-take (suc n) [] h = tt
All-take (suc n) (x ∷ xs) (hx, hxs) = (hx, All-take n xs hxs)

-- The view that `parse` returns of an input that is long enough.
abbrev view : ℕ → List ℕ → QuicVarInt
view b rest =
    let len = from_first_byte b in
    let bytes = take (byte_len len) (b ∷ rest) in
    record { bytes = bytes; value = decode bytes; length_of = len }

parse-view :
    (b : ℕ) (rest : List ℕ)
    → byte_len (from_first_byte b) ≤ suc (length rest)
    → parse (b ∷ rest) ≡ ok (view b rest)
unfolding parse
parse-view b rest h = rw (le→ltb (suc (length rest)) (byte_len (from_first_byte b)) h)

-- `parse` inverts `encode`, whatever follows the encoding.
pub parse-encode :
    (len : QuicVarIntLen) (v : ℕ) (more : List ℕ)
    → v ≤ max_value len
    → parse (encode len v ++ more)
      ≡ ok (record { bytes = encode len v; value = v; length_of = len })
parse-encode len v more h =
    let tail = be_bytes (tail_len len) (v % 256 ^ tail_len len) in
    let width = from_first_byte-first_byte len (v / 256 ^ tail_len len) (top_bits len v h) in
    let size : length tail ≡ tail_len len = length-be_bytes (tail_len len) _ in
    let enough : byte_len (from_first_byte (first_byte len v)) ≤ suc (length (tail ++ more)) =
      rw width (omega (arith, byte_len-tail_len len, size, length-append tail more)) in
    let front : take (byte_len len) (encode len v ++ more) ≡ encode len v =
      rw (← length-encode len v h) (take-append (encode len v) more) in
    let seen : view (first_byte len v) (tail ++ more) ≡ record {
      bytes = take (byte_len len) (encode len v ++ more);
      value = decode (take (byte_len len) (encode len v ++ more));
      length_of = len;
    } =
      rw (width, encode_lem len v h) in
    ap (λ (t : List ℕ). parse (t ++ more)) (encode_lem len v h)
    ∙ parse-view (first_byte len v) (tail ++ more) enough
    ∙ ap ok (seen ∙ rw (front, decode-encode len v h))

-- The exact bytes at the front of the input, whose number is set by the width; a value that
-- fits this width; and the bytes that `build` writes for it at this width.
pub record IsExact (input : List ℕ) (v : QuicVarInt) : Type 0 where
  pub front : v.bytes ≡ take (byte_len v.length_of) input
  pub size : length v.bytes ≡ byte_len v.length_of
  pub fits : v.value ≤ max_value v.length_of
  pub written : encode v.length_of v.value ≡ v.bytes

view-IsExact :
    (b : ℕ) (rest : List ℕ)
    → b < 256
    → All IsByte rest
    → byte_len (from_first_byte b) ≤ suc (length rest)
    → IsExact (b ∷ rest) (view b rest)
view-IsExact b rest hb hrest enough =
    let len = from_first_byte b in
    let k = tail_len len in
    let cut : take (byte_len len) (b ∷ rest) ≡ b ∷ take k rest = rw byte_len-tail_len in
    let size : length (take k rest) ≡ k =
      omega (arith, length-take k rest, byte_len-tail_len len) in
    let bytes = All-take k rest hrest in
    record {
      front = refl;
      size = rw cut (omega (arith, size, byte_len-tail_len len));
      fits = rw cut (decode-le b (take k rest) hb bytes size);
      written = rw cut (encode-decode b (take k rest) hb bytes size);
    }

-- A successful `parse` of bytes returns the bytes at the front of the input, as many as the width
-- says, with a value that fits the width and whose encoding at that width is these bytes.
pub parse-IsExact :
    (bytes : List ℕ) (v : QuicVarInt) → All IsByte bytes → parse bytes ≡ ok v → IsExact bytes v
parse-IsExact [] v h e = unfold parse in cc
parse-IsExact (b ∷ rest) v (hb, hrest) e =
    elim (Bool-cases (ltb (suc (length rest)) (byte_len (from_first_byte b)))) [
      | inl short ↦ unfold parse in cc short
      | inr long ↦
          let enough = ltb→le (suc (length rest)) (byte_len (from_first_byte b)) long in
          let same : view b rest ≡ v = cc (parse-view b rest enough, e) in
          subst (IsExact (b ∷ rest)) same (view-IsExact b rest hb hrest enough)
    ]

-- A prefix of an input that is shorter than the width its first byte sets is refused, with the
-- width as the number of bytes required.
pub parse_short :
    (b : ℕ) (rest : List ℕ)
    → suc (length rest) < byte_len (from_first_byte b)
    → parse (b ∷ rest) ≡ err (incomplete (byte_len (from_first_byte b)) (suc (length rest)))
unfolding parse
parse_short b rest h = rw (lt→ltb (suc (length rest)) (byte_len (from_first_byte b)) h)

-- The width that a builder uses.
abbrev pub width : QuicVarIntBuilder → QuicVarIntLen
width b = unwrap_or b.length_of (canonical_len b.value)

-- `build` writes the encoding over the front of a destination that has room.
pub build-eq_ok :
    (b : QuicVarIntBuilder)
    → b.value ≤ max_value (width b)
    → byte_len (width b) ≤ length b.destination
    → build b ≡ (
      encode (width b) b.value ++ drop (byte_len (width b)) b.destination,
      ok (record { bytes = encode (width b) b.value; value = b.value; length_of = width b }),
    )
unfolding build
build-eq_ok b fits room =
    let top : b.value ≤ max_varint = in_range (width b) fits in
    rw (
      le→ltb max_varint b.value top,
      le→ltb (max_value (width b)) b.value fits,
      le→ltb (length b.destination) (byte_len (width b)) room,
    )
  where
    in_range : (len : QuicVarIntLen) → b.value ≤ max_value len → b.value ≤ max_varint
    in_range one h = omega arith
    in_range two h = omega arith
    in_range four h = omega arith
    in_range eight h = h

-- If the value fits the chosen width and the destination has room, `build` succeeds, `parse` reads
-- the same view back from the destination, the length of the destination is the same, and the
-- bytes behind the encoding are those that were there.
pub parse-build_varint :
    (b : QuicVarIntBuilder)
    → b.value ≤ max_value (width b)
    → byte_len (width b) ≤ length b.destination
    → let (dst, result) = build b in
      (v : QuicVarInt) × (result ≡ ok v)
      × (v.value ≡ b.value)
      × (v.length_of ≡ width b)
      × (parse dst ≡ ok v)
      × (length dst ≡ length b.destination)
      × (drop (byte_len (width b)) dst ≡ drop (byte_len (width b)) b.destination)
parse-build_varint b fits room =
    let exact = encode (width b) b.value in
    let n = byte_len (width b) in
    let size : length exact ≡ n = length-encode (width b) b.value fits in
    let back = drop n b.destination in
    rw (build-eq_ok b fits room) (
      record { bytes = exact; value = b.value; length_of = width b },
      refl,
      refl,
      refl,
      parse-encode (width b) b.value back fits,
      omega (arith, length-append exact back, length-drop n b.destination),
      ap (λ (t : ℕ). drop t (exact ++ back)) (sym size) ∙ drop-append exact back,
    )

-- A builder whose value exceeds its width, or whose destination is shorter than the width, fails
-- and leaves the destination as it was.
build_fails :
    (b : QuicVarIntBuilder)
    → (max_value (width b) < b.value) ⊎ (length b.destination < byte_len (width b))
    → ((build b).0 ≡ b.destination) × (is_err (build b).1 ≡ true)
unfolding build
build_fails b h = ground arith
