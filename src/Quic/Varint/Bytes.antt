-- ===== src/Quic/Varint/Bytes.antt =====
-- Big-endian byte strings of src/quic/varint.rs as numbers in base 256.
use net_wire_rs.Common.{ℕ, zero, suc, ◌+◌, ◌*◌, ◌/◌, ◌%◌, ◌^◌, ◌<◌, ◌≤◌, bit_or}
use net_wire_rs.Common.{
  List, [], ◌∷◌, ◌++◌, All, length, length-append, ◌≡◌, refl, ap, sym, ◌∙◌, arith,
}
use net_wire_rs.Common.Result.{word}
use net_wire_rs.Common.Bits.{bit_or-shift}
use net_wire_rs.Quic.Varint.{accumulate, be_bytes}
use native.Mathlib.Nat.{pow-suc, mul-le-mul_right, le-mul_of_pos_right, one-le-pow}

abbrev pub IsByte : ℕ → Type 0
IsByte b = b < 256

-- The number that a big-endian byte string stands for.
unfoldable pub be_value : List ℕ → ℕ
be_value [] = 0
be_value (x ∷ xs) = x * 256 ^ length xs + be_value xs

-- `t * 256 ^ (k + 1)` in terms of `t * 256 ^ k`.
pub mul-pow-suc : (t k : ℕ) → t * 256 ^ suc k ≡ 256 * (t * 256 ^ k)
mul-pow-suc t k = omega (arith, ap (λ (u : ℕ). t * u) (pow-suc 256 k))

pub be_value-lt : (xs : List ℕ) → All IsByte xs → be_value xs < 256 ^ length xs
unfolding be_value
be_value-lt [] h = omega arith
be_value-lt (x ∷ xs) (hx, hxs) = grind (arith, be_value-lt xs hxs, mul-pow-suc 1 (length xs))

-- One round of the source's loop does not lose a bit while the value fits 56 bits.
shift_in : (acc b : ℕ) → acc < 2 ^ 56 → b < 256 → bit_or (acc * 2 ^ 8 % word) b ≡ acc * 256 + b
shift_in acc b h hb = ground (arith, bit_or-shift 8 acc b)

-- What one round leaves of the room above the value.
fits_tail :
    (acc x n : ℕ)
    → x < 256
    → (acc + 1) * 256 ^ suc n ≤ word
    → (acc < 2 ^ 56) × ((acc * 256 + x + 1) * 256 ^ n ≤ word)
fits_tail acc x n hx fits =
    let pos : 0 < 256 ^ n = one-le-pow n 256 (omega arith) in
    let big : acc + 1 ≤ (acc + 1) * 256 ^ n = le-mul_of_pos_right (acc + 1) pos in
    let low : (x + 1) * 256 ^ n ≤ 256 * 256 ^ n = mul-le-mul_right (256 ^ n) (omega arith) in
    omega (arith, mul-pow-suc (acc + 1) n, big, low)

pub accumulate-be_value :
    (acc : ℕ) (xs : List ℕ)
    → All IsByte xs
    → (acc + 1) * 256 ^ length xs ≤ word
    → accumulate acc xs ≡ acc * 256 ^ length xs + be_value xs
unfolding accumulate be_value
accumulate-be_value acc [] h fits = omega arith
accumulate-be_value acc (x ∷ xs) (hx, hxs) fits =
    let (small, fits') = fits_tail acc x (length xs) hx fits in
    rw (shift_in acc x small hx)
      (omega (arith, accumulate-be_value (acc * 256 + x) xs hxs fits', mul-pow-suc acc (length xs)))

pub length-be_bytes : (k v : ℕ) → length (be_bytes k v) ≡ k
unfolding be_bytes
length-be_bytes zero v = refl
length-be_bytes (suc k) v =
    omega (arith, length-append (be_bytes k (v / 256)) (v % 256 ∷ []), length-be_bytes k (v / 256))

be_bytes-suc : (k v : ℕ) → be_bytes (suc k) v ≡ be_bytes k (v / 256) ++ (v % 256 ∷ [])
unfolding be_bytes
be_bytes-suc k v = refl

-- The first byte of a number's `k + 1` bytes, and the others.
pub be_bytes_head :
    (k q r : ℕ) → r < 256 ^ k → be_bytes (suc k) (q * 256 ^ k + r) ≡ q % 256 ∷ be_bytes k r
be_bytes_head zero q r h = unfold be_bytes in ap (λ (t : ℕ). t ∷ []) (omega arith)
be_bytes_head (suc k) q r h =
    let up : (q * 256 ^ suc k + r) / 256 ≡ q * 256 ^ k + r / 256 = omega (arith, mul-pow-suc q k) in
    let low : (q * 256 ^ suc k + r) % 256 ≡ r % 256 = omega (arith, mul-pow-suc q k) in
    let room : r / 256 < 256 ^ k = omega (arith, mul-pow-suc 1 k) in
    be_bytes-suc (suc k) (q * 256 ^ suc k + r)
    ∙ rw (up, low) (ap (λ (t : List ℕ). t ++ (r % 256 ∷ [])) (be_bytes_head k q (r / 256) room))
    ∙ ap (◌∷◌ (q % 256)) (sym (be_bytes-suc k r))

pub be_bytes-be_value : (xs : List ℕ) → All IsByte xs → be_bytes (length xs) (be_value xs) ≡ xs
unfolding be_value
be_bytes-be_value [] h = unfold be_bytes in refl
be_bytes-be_value (x ∷ xs) (hx, hxs) =
    let small : x % 256 ≡ x = omega arith in
    be_bytes_head (length xs) x (be_value xs) (be_value-lt xs hxs)
    ∙ rw small (ap (◌∷◌ x) (be_bytes-be_value xs hxs))

be_value-snoc : (xs : List ℕ) (b : ℕ) → be_value (xs ++ (b ∷ [])) ≡ be_value xs * 256 + b
unfolding be_value
be_value-snoc [] b = omega arith
be_value-snoc (x ∷ xs) b =
    let len : length (xs ++ (b ∷ [])) ≡ suc (length xs) =
      omega (arith, length-append xs (b ∷ [])) in
    rw len (omega (arith, be_value-snoc xs b, mul-pow-suc x (length xs)))

pub be_value-be_bytes : (k v : ℕ) → v < 256 ^ k → be_value (be_bytes k v) ≡ v
be_value-be_bytes zero v h = unfold be_bytes be_value in omega arith
be_value-be_bytes (suc k) v h =
    let room : v / 256 < 256 ^ k = omega (arith, mul-pow-suc 1 k) in
    rw (be_bytes-suc, be_value-snoc) (omega (arith, be_value-be_bytes k (v / 256) room))

All-snoc : (xs : List ℕ) (b : ℕ) → All IsByte xs → b < 256 → All IsByte (xs ++ (b ∷ []))
All-snoc [] b h hb = (hb, tt)
All-snoc (x ∷ xs) b (hx, hxs) hb = (hx, All-snoc xs b hxs hb)

pub be_bytes-IsByte : (k v : ℕ) → All IsByte (be_bytes k v)
be_bytes-IsByte zero v = unfold be_bytes in tt
be_bytes-IsByte (suc k) v =
    rw be_bytes-suc (All-snoc (be_bytes k (v / 256)) _ (be_bytes-IsByte k (v / 256)) (omega arith))
