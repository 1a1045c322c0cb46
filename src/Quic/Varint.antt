-- ===== src/Quic/Varint.antt =====
-- src/quic/varint.rs: variable-length integers. A byte slice is a list of numbers; a view that
-- borrows bytes carries the list of them. The destination of a builder is returned beside the
-- result, as it stands after the call.
pub mod Bytes
pub mod Parse
pub mod Build
pub mod RoundTrip
use net_wire_rs.Common.{ℕ, zero, suc, ◌+◌, ◌-◌, ◌*◌, ◌/◌, ◌%◌, ◌^◌, ◌<◌, bit_and, bit_or}
use net_wire_rs.Common.{List, [], ◌∷◌, ◌++◌, Option, none, some, Bool, ltb, leb, ◌==◌}
use net_wire_rs.Common.{if◌then◌else◌, length, take, drop}
use net_wire_rs.Common.Result.{Result, ok, err, ◌>>=◌, ok_or, word}

-- MAX_VALUE
abbrev pub max_varint : ℕ
max_varint = 2 ^ 62 - 1

pub data QuicVarIntParseError : Type 0 where
  incomplete : ℕ → ℕ → QuicVarIntParseError

pub data QuicVarIntLen : Type 0 where
  one two four eight : QuicVarIntLen

abbrev pub byte_len : QuicVarIntLen → ℕ
byte_len one = 1
byte_len two = 2
byte_len four = 4
byte_len eight = 8

abbrev pub max_value : QuicVarIntLen → ℕ
max_value one = 63
max_value two = 16383
max_value four = 1073741823
max_value eight = max_varint

abbrev pub prefix : QuicVarIntLen → ℕ
prefix one = 0
prefix two = 1
prefix four = 2
prefix eight = 3

-- `first >> 6`
abbrev pub from_first_byte : ℕ → QuicVarIntLen
from_first_byte first =
    let top = first / 2 ^ 6 in
    if top == 0 then one else if top == 1 then two else if top == 2 then four else eight

pub data QuicVarIntBuildError : Type 0 where
  value_too_large : ℕ → QuicVarIntBuildError
  width_too_small : QuicVarIntLen → ℕ → QuicVarIntBuildError
  buffer_too_short : ℕ → ℕ → QuicVarIntBuildError

pub record QuicVarInt : Type 0 where
  pub bytes : List ℕ
  pub value : ℕ
  pub length_of : QuicVarIntLen

-- The loop of `parse` over the bytes behind the first: `value = (value << 8) | byte`.
unfoldable pub accumulate : ℕ → List ℕ → ℕ
accumulate value [] = value
accumulate value (b ∷ rest) = accumulate (bit_or (value * 2 ^ 8 % word) b) rest

-- The value of the exact bytes. An empty slice does not come up: the first byte was read.
unfoldable pub decode : List ℕ → ℕ
unfolding accumulate
decode [] = 0
decode (first ∷ rest) = accumulate (bit_and first 0x3f) rest

unfoldable pub parse_from : ℕ → List ℕ → Result QuicVarIntParseError QuicVarInt
unfolding decode
parse_from first bytes =
    let length_of = from_first_byte first in
    let required = byte_len length_of in
    if ltb (length bytes) required
    then err (incomplete required (length bytes))
    else ok (record {
      bytes = take required bytes;
      value = decode (take required bytes);
      length_of = length_of;
    })

-- QuicVarInt::parse
unfoldable pub parse : List ℕ → Result QuicVarIntParseError QuicVarInt
unfolding parse_from
parse [] = err (incomplete 1 0)
parse (first ∷ rest) = parse_from first (first ∷ rest)

unfoldable pub canonical_len : ℕ → QuicVarIntLen
canonical_len value =
    if leb value (max_value one)
    then one
    else if leb value (max_value two)
    then two
    else if leb value (max_value four)
    then four
    else eight

-- `self.length as u8 == canonical_len(self.value) as u8`; the cast numbers the variants as
-- `prefix` does.
unfoldable pub is_canonical : QuicVarInt → Bool
unfolding canonical_len
is_canonical v = prefix v.length_of == prefix (canonical_len v.value)

-- `to_be_bytes`, of the lowest `k` bytes.
unfoldable pub be_bytes : ℕ → ℕ → List ℕ
be_bytes zero value = []
be_bytes (suc k) value = be_bytes k (value / 2 ^ 8) ++ (value % 2 ^ 8 ∷ [])

-- `exact[0] |= length.prefix() << 6`
unfoldable pub mark_first : ℕ → List ℕ → List ℕ
mark_first p [] = []
mark_first p (b ∷ rest) = bit_or b (p * 2 ^ 6) ∷ rest

-- The bytes that `build` writes.
unfoldable pub encode : QuicVarIntLen → ℕ → List ℕ
unfolding be_bytes mark_first
encode len value = mark_first (prefix len) (drop (8 - byte_len len) (be_bytes 8 value))

pub record QuicVarIntBuilder : Type 0 where
  pub destination : List ℕ
  pub value : ℕ
  pub length_of : Option QuicVarIntLen

abbrev pub unwrap_or : Option QuicVarIntLen → QuicVarIntLen → QuicVarIntLen
unwrap_or none len = len
unwrap_or (some len) other = len

-- QuicVarIntBuilder::build
unfoldable pub build : QuicVarIntBuilder → List ℕ × Result QuicVarIntBuildError QuicVarInt
unfolding canonical_len encode
build b =
    let len = unwrap_or b.length_of (canonical_len b.value) in
    let required = byte_len len in
    let exact = encode len b.value in
    if ltb max_varint b.value
    then (b.destination, err (value_too_large b.value))
    else if ltb (max_value len) b.value
    then (b.destination, err (width_too_small len b.value))
    else if ltb (length b.destination) required
    then (b.destination, err (buffer_too_short required (length b.destination)))
    else (
      exact ++ drop required b.destination,
      ok (record { bytes = exact; value = b.value; length_of = len }),
    )
