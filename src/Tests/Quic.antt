-- ===== src/Tests/Quic.antt =====
-- src/quic/varint.rs on small inputs, among them the examples of RFC 9000, appendix A.1.
use net_wire_rs.Common.{ℕ, ◌≤◌, arith}
use net_wire_rs.Common.{List, [], ◌∷◌, none, some, length, drop, ◌≡◌, refl}
use net_wire_rs.Common.Result.{ok}
use net_wire_rs.Quic.Varint.{
  one, two, four, eight, byte_len, max_value, QuicVarInt, QuicVarIntBuilder, parse, build,
  canonical_len,
}
use net_wire_rs.Quic.Varint.Build.{canonical_len-shortest}
use net_wire_rs.Quic.Varint.RoundTrip.{width, parse-build_varint, parse-IsExact, IsExact}

-- 0xc2197c5eff14e88c is 151288809941952652, and 0x7bbd is 15293.
abbrev eight_bytes : List ℕ
eight_bytes = 0xc2 ∷ 0x19 ∷ 0x7c ∷ 0x5e ∷ 0xff ∷ 0x14 ∷ 0xe8 ∷ 0x8c ∷ []

abbrev two_bytes : List ℕ
two_bytes = 0x7b ∷ 0xbd ∷ 0xff ∷ []

parse-eight_bytes :
    parse eight_bytes
    ≡ ok (record { bytes = eight_bytes; value = 151288809941952652; length_of = eight })
unfolding parse
parse-eight_bytes = refl

abbrev two_view : QuicVarInt
two_view = record { bytes = 0x7b ∷ 0xbd ∷ []; value = 15293; length_of = two }

parse-two_bytes : parse two_bytes ≡ ok two_view
unfolding parse
parse-two_bytes = refl

abbrev builder : QuicVarIntBuilder
builder = record { destination = 1 ∷ 2 ∷ 3 ∷ []; value = 15293; length_of = none }

built : (build builder).0 ≡ 0x7b ∷ 0xbd ∷ 3 ∷ []
unfolding build
built = refl

parse-build_varint_example :
    let (dst, result) = build builder in
    (v : QuicVarInt) × (result ≡ ok v)
    × (v.value ≡ 15293)
    × (v.length_of ≡ width builder)
    × (parse dst ≡ ok v)
    × (length dst ≡ 3)
    × (drop (byte_len (width builder)) dst ≡ drop (byte_len (width builder)) builder.destination)
parse-build_varint_example =
    parse-build_varint builder (unfold canonical_len in omega arith)
      (unfold canonical_len in omega arith)

parse-IsExact_example : IsExact two_bytes two_view
parse-IsExact_example =
    parse-IsExact two_bytes two_view (omega arith, (omega arith, (omega arith, tt))) parse-two_bytes

abbrev narrow : QuicVarIntBuilder
narrow = record { destination = 1 ∷ 2 ∷ []; value = 64; length_of = some one }

canonical_len-shortest_example :
    (100 ≤ max_value (canonical_len 100)) × (byte_len (canonical_len 100) ≤ 4)
canonical_len-shortest_example = canonical_len-shortest 100 four (omega arith) (omega arith)
