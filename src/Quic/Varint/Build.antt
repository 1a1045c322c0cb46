-- ===== src/Quic/Varint/Build.antt =====
-- What `build` of src/quic/varint.rs writes, in plain arithmetic.
use net_wire_rs.Common.{ℕ, suc, ◌+◌, ◌-◌, ◌*◌, ◌/◌, ◌%◌, ◌^◌, ◌<◌, ◌≤◌, bit_or}
use net_wire_rs.Common.{◌∷◌, All, length, drop, ◌≡◌, refl, ap, ◌∙◌, arith}
use net_wire_rs.Common.Bits.{all_below, agree_on_bytes}
use net_wire_rs.Quic.Varint.{
  QuicVarIntLen, one, two, four, eight, byte_len, max_value, prefix, be_bytes, mark_first, encode,
  canonical_len, from_first_byte,
}
use net_wire_rs.Quic.Varint.Bytes.{IsByte, be_bytes_head, length-be_bytes, be_bytes-IsByte}

-- The number of bytes behind the first.
abbrev pub tail_len : QuicVarIntLen → ℕ
tail_len one = 0
tail_len two = 1
tail_len four = 3
tail_len eight = 7

-- The first byte: the width's prefix over the six highest bits of the value.
abbrev pub first_byte : QuicVarIntLen → ℕ → ℕ
first_byte len v = prefix len * 64 + v / 256 ^ tail_len len

last_bytes :
    (len : QuicVarIntLen) (v : ℕ)
    → drop (8 - byte_len len) (be_bytes 8 v) ≡ be_bytes (suc (tail_len len)) v
unfolding be_bytes
last_bytes one v = refl
last_bytes two v = refl
last_bytes four v = refl
last_bytes eight v = refl

mark_table :
    (len : QuicVarIntLen) (b : ℕ)
    → b < 256
    → bit_or (b % 64) (prefix len * 2 ^ 6) ≡ prefix len * 64 + b % 64
unfolding all_below
mark_table one = agree_on_bytes (λ b. bit_or (b % 64) (0 * 2 ^ 6)) (λ b. 0 * 64 + b % 64) refl
mark_table two = agree_on_bytes (λ b. bit_or (b % 64) (1 * 2 ^ 6)) (λ b. 1 * 64 + b % 64) refl
mark_table four = agree_on_bytes (λ b. bit_or (b % 64) (2 * 2 ^ 6)) (λ b. 2 * 64 + b % 64) refl
mark_table eight = agree_on_bytes (λ b. bit_or (b % 64) (3 * 2 ^ 6)) (λ b. 3 * 64 + b % 64) refl

pub top_bits : (len : QuicVarIntLen) (v : ℕ) → v ≤ max_value len → v / 256 ^ tail_len len < 64
top_bits one v h = omega arith
top_bits two v h = omega arith
top_bits four v h = omega arith
top_bits eight v h = omega arith

pub split_value :
    (len : QuicVarIntLen) (v : ℕ)
    → (v ≡ v / 256 ^ tail_len len * 256 ^ tail_len len + v % 256 ^ tail_len len)
      × (v % 256 ^ tail_len len < 256 ^ tail_len len)
split_value one v = omega arith
split_value two v = omega arith
split_value four v = omega arith
split_value eight v = omega arith

-- The bytes of a value that fits: its marked first byte, and the others big-endian.
pub encode_lem :
    (len : QuicVarIntLen) (v : ℕ)
    → v ≤ max_value len
    → encode len v ≡ first_byte len v ∷ be_bytes (tail_len len) (v % 256 ^ tail_len len)
unfolding encode mark_first
encode_lem len v h =
    let k = tail_len len in
    let q = v / 256 ^ k in
    let small : q < 64 = top_bits len v h in
    let (whole, low) = split_value len v in
    let bytes : be_bytes (suc k) v ≡ q % 256 ∷ be_bytes k (v % 256 ^ k) =
      ap (be_bytes (suc k)) whole ∙ be_bytes_head k q (v % 256 ^ k) low in
    let q_mod : q % 256 ≡ q % 64 = omega arith in
    let q_eq : q % 64 ≡ q = omega arith in
    ap (mark_first (prefix len)) (last_bytes len v ∙ bytes)
    ∙ ap (λ (t : ℕ). t ∷ be_bytes k (v % 256 ^ k))
        (rw q_mod (mark_table len q (omega arith) ∙ rw q_eq))

pub length-encode :
    (len : QuicVarIntLen) (v : ℕ) → v ≤ max_value len → length (encode len v) ≡ byte_len len
length-encode one v h = rw (encode_lem one v h) (ap suc (length-be_bytes 0 _))
length-encode two v h = rw (encode_lem two v h) (ap suc (length-be_bytes 1 _))
length-encode four v h = rw (encode_lem four v h) (ap suc (length-be_bytes 3 _))
length-encode eight v h = rw (encode_lem eight v h) (ap suc (length-be_bytes 7 _))

pub first_byte-IsByte : (len : QuicVarIntLen) (v : ℕ) → v ≤ max_value len → first_byte len v < 256
first_byte-IsByte one v h = omega arith
first_byte-IsByte two v h = omega arith
first_byte-IsByte four v h = omega arith
first_byte-IsByte eight v h = omega arith

-- Everything written is a byte.
pub encode-IsByte : (len : QuicVarIntLen) (v : ℕ) → v ≤ max_value len → All IsByte (encode len v)
encode-IsByte len v h =
    rw (encode_lem len v h) (first_byte-IsByte len v h, be_bytes-IsByte (tail_len len) _)

-- The width read off the first byte is the one written.
pub from_first_byte-first_byte :
    (len : QuicVarIntLen) (q : ℕ) → q < 64 → from_first_byte (prefix len * 64 + q) ≡ len
from_first_byte-first_byte one q h = ground arith
from_first_byte-first_byte two q h = ground arith
from_first_byte-first_byte four q h = ground arith
from_first_byte-first_byte eight q h = ground arith

-- The canonical width of a 62-bit value holds it, and is no longer than any other width that holds
-- it.
pub canonical_len-shortest :
    (v : ℕ) (len : QuicVarIntLen)
    → v < 2 ^ 62
    → v ≤ max_value len
    → (v ≤ max_value (canonical_len v)) × (byte_len (canonical_len v) ≤ byte_len len)
unfolding canonical_len
canonical_len-shortest v one h le = (ground arith, ground arith)
canonical_len-shortest v two h le = (ground arith, ground arith)
canonical_len-shortest v four h le = (ground arith, ground arith)
canonical_len-shortest v eight h le = (ground arith, ground arith)
