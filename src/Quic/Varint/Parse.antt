-- ===== src/Quic/Varint/Parse.antt =====
-- `parse` of src/quic/varint.rs: what it accepts, and that it inverts `build`.
use net_wire_rs.Common.{ℕ, suc, ◌+◌, ◌*◌, ◌/◌, ◌%◌, ◌^◌, ◌<◌, ◌≤◌}
use net_wire_rs.Common.{List, ◌∷◌, All, length, ◌≡◌, refl, ap, sym, ◌∙◌, arith}
use net_wire_rs.Common.Bits.{and_six_bits}
use net_wire_rs.Common.Result.{word}
use net_wire_rs.Quic.Varint.{
  QuicVarIntLen, one, two, four, eight, byte_len, max_value, prefix, be_bytes, decode, encode,
  from_first_byte,
}
use net_wire_rs.Quic.Varint.Bytes.{
  IsByte, be_value, be_value-lt, accumulate-be_value, be_value-be_bytes, be_bytes-be_value,
  be_bytes-IsByte, length-be_bytes,
}
use net_wire_rs.Quic.Varint.Build.{
  tail_len, first_byte, encode_lem, first_byte-IsByte, split_value, top_bits,
}

-- The loop computes the base-256 value of the bytes less the two prefix bits.
decode_lem :
    (len : QuicVarIntLen) (b : ℕ) (rest : List ℕ)
    → b < 256
    → All IsByte rest
    → length rest ≡ tail_len len
    → decode (b ∷ rest) ≡ b % 64 * 256 ^ tail_len len + be_value rest
unfolding decode
decode_lem len b rest hb hrest e =
    let fits : (b % 64 + 1) * 256 ^ length rest ≤ word = rw e (room len) in
    rw (and_six_bits b hb) (accumulate-be_value (b % 64) rest hrest fits ∙ rw e)
  where
    room : (l : QuicVarIntLen) → (b % 64 + 1) * 256 ^ tail_len l ≤ word
    room one = omega arith
    room two = omega arith
    room four = omega arith
    room eight = omega arith

pub byte_len-tail_len : (len : QuicVarIntLen) → byte_len len ≡ suc (tail_len len)
byte_len-tail_len one = refl
byte_len-tail_len two = refl
byte_len-tail_len four = refl
byte_len-tail_len eight = refl

-- `decode` inverts `encode` on every value that fits the width.
pub decode-encode : (len : QuicVarIntLen) (v : ℕ) → v ≤ max_value len → decode (encode len v) ≡ v
decode-encode len v h =
    let k = tail_len len in
    let small : v / 256 ^ k < 64 = top_bits len v h in
    let (whole, low) = split_value len v in
    let byte : first_byte len v < 256 = first_byte-IsByte len v h in
    let q_eq : first_byte len v % 64 ≡ v / 256 ^ k = omega arith in
    rw (encode_lem len v h) (
      decode_lem len (first_byte len v) (be_bytes k (v % 256 ^ k)) byte (be_bytes-IsByte k _)
        (length-be_bytes k _)
      ∙ rw (q_eq, be_value-be_bytes k (v % 256 ^ k) low) (sym whole))

-- The first byte fixes the width, and its six low bits are the highest bits of the value.
first_byte-from_first_byte : (b : ℕ) → b < 256 → prefix (from_first_byte b) * 64 + b % 64 ≡ b
first_byte-from_first_byte b h = ground arith

-- A value read from `tail_len + 1` bytes fits the width, and its parts are the bytes' own.
read_parts :
    (len : QuicVarIntLen) (top low : ℕ)
    → top < 64
    → low < 256 ^ tail_len len
    → let v = top * 256 ^ tail_len len + low in
      (v ≤ max_value len) × (v / 256 ^ tail_len len ≡ top) × (v % 256 ^ tail_len len ≡ low)
read_parts one top low h l = omega arith
read_parts two top low h l = omega arith
read_parts four top low h l = omega arith
read_parts eight top low h l = omega arith

module _ (b : ℕ) (rest : List ℕ) (hb : b < 256) (hrest : All IsByte rest)
    (e : length rest ≡ tail_len (from_first_byte b)) where
  parts :
      let v = b % 64 * 256 ^ tail_len (from_first_byte b) + be_value rest in
      (v ≤ max_value (from_first_byte b))
      × (v / 256 ^ tail_len (from_first_byte b) ≡ b % 64)
      × (v % 256 ^ tail_len (from_first_byte b) ≡ be_value rest)
  parts =
      read_parts (from_first_byte b) (b % 64) (be_value rest) (omega arith)
        (rw e at (be_value-lt rest hrest))

  pub decode-le : decode (b ∷ rest) ≤ max_value (from_first_byte b)
  decode-le = rw (decode_lem (from_first_byte b) b rest hb hrest e) parts.0

  -- `encode` gives back the bytes that `decode` read.
  pub encode-decode : encode (from_first_byte b) (decode (b ∷ rest)) ≡ b ∷ rest
  encode-decode =
      let len = from_first_byte b in
      let value = decode_lem len b rest hb hrest e in
      let tail : be_bytes (tail_len len) (be_value rest) ≡ rest =
        ap (λ (t : ℕ). be_bytes t (be_value rest)) (sym e) ∙ be_bytes-be_value rest hrest in
      rw value
        (encode_lem len _ parts.0 ∙ rw (parts.1, parts.2, first_byte-from_first_byte b hb, tail))
