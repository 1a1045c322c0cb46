-- ===== src/Common/Bits.antt =====
-- The bit operations of the source as arithmetic: `|` of disjoint fields at every width, and
-- masks on one byte by evaluation of all its values.
use Prim.Native.Nat.{ℕ, zero, suc, ◌+◌, ◌-◌, ◌*◌, ◌/◌, ◌%◌, ◌^◌, ◌≤◌, ◌<◌, max, bit_and, bit_or}
use Prim.Native.Nat.{digits, bit_or-bitwise}
use mathlib.Core.Path.{◌≡◌, refl, ap}
use mathlib.Core.Bool.{Bool, true, ◌&&◌}
use native.Mathlib.Nat.{pow-suc}
use native.Mathlib.Omega.{arith}
use net_wire_rs.Common.Tests.{◌==◌, ==→eq}

-- The recursion that the native `|` stands for does not depend on its fuel.
abbrev or_digits : ℕ → ℕ → ℕ → ℕ
or_digits n a b = digits (λ y. y) max n a b

or_digits_fuel : (m n a b : ℕ) → a ≤ m → a ≤ n → or_digits m a b ≡ or_digits n a b
or_digits_fuel zero zero a b p q = refl
or_digits_fuel zero (suc n) zero b p q = refl
or_digits_fuel zero (suc n) (suc a) b p q = absurd (omega arith)
or_digits_fuel (suc m) zero zero b p q = refl
or_digits_fuel (suc m) zero (suc a) b p q = absurd (omega arith)
or_digits_fuel (suc m) (suc n) zero b p q = refl
or_digits_fuel (suc m) (suc n) (suc a) b p q =
    omega (arith, or_digits_fuel m n (suc a / 2) (b / 2) (omega arith) (omega arith))

zero-bit_or : (b : ℕ) → bit_or 0 b ≡ b
zero-bit_or b = bit_or-bitwise 0 b

bit_or-digit : (a b : ℕ) → bit_or a b ≡ bit_or (a / 2) (b / 2) * 2 + max (a % 2) (b % 2)
bit_or-digit zero b = omega (arith, zero-bit_or b, zero-bit_or (b / 2))
bit_or-digit (suc a) b = omega (
  arith,
  bit_or-bitwise (suc a) b,
  bit_or-bitwise (suc a / 2) (b / 2),
  or_digits_fuel a (suc a / 2) (suc a / 2) (b / 2) (omega arith) (omega arith),
)

bit_or-zero_below : (n a : ℕ) → a ≤ n → bit_or a 0 ≡ a
bit_or-zero_below n zero h = zero-bit_or 0
bit_or-zero_below zero (suc a) h = absurd (omega arith)
bit_or-zero_below (suc n) (suc a) h =
    omega (arith, bit_or-digit (suc a) 0, bit_or-zero_below n (suc a / 2) (omega arith))

double_pow : (q k : ℕ) → q * 2 ^ suc k ≡ 2 * (q * 2 ^ k)
double_pow q k = omega (arith, ap (λ (t : ℕ). q * t) (pow-suc 2 k))

-- `(q << k) | r` is a sum when `r` fits the `k` low bits.
pub bit_or-shift : (k q r : ℕ) → r < 2 ^ k → bit_or (q * 2 ^ k) r ≡ q * 2 ^ k + r
bit_or-shift zero q r h = ground (arith, bit_or-zero_below q q)
bit_or-shift (suc k) q r h = ground (
  arith,
  pow-suc 2 k,
  double_pow q k,
  bit_or-digit (q * 2 ^ suc k) r,
  bit_or-shift k q (r / 2) (omega (arith, pow-suc 2 k)),
)

-- Over a small range, every value by evaluation.
unfoldable pub all_below : ℕ → (ℕ → Bool) → Bool
all_below zero p = true
all_below (suc n) p = p n && all_below n p

pub all_below→true : (n : ℕ) (p : ℕ → Bool) (x : ℕ) → all_below n p ≡ true → x < n → p x ≡ true
unfolding all_below
all_below→true zero p x h lt = absurd (omega arith)
all_below→true (suc n) p x h lt = ground (arith, all_below→true n p x)

module _ (f g : ℕ → ℕ) where
  -- Two functions agree on a byte if they agree on each of the 256.
  pub agree_on_bytes : all_below 256 (λ b. f b == g b) ≡ true → (b : ℕ) → b < 256 → f b ≡ g b
  agree_on_bytes h b lt = ==→eq _ _ (all_below→true 256 (λ x. f x == g x) b h lt)

pub and_six_bits : (b : ℕ) → b < 256 → bit_and b 0x3f ≡ b % 64
unfolding all_below
and_six_bits = agree_on_bytes _ _ refl

pub and_seven_bits : (b : ℕ) → b < 256 → bit_and b 0x7f ≡ b % 128
unfolding all_below
and_seven_bits = agree_on_bytes _ _ refl

pub and_top_bit : (b : ℕ) → b < 256 → bit_and b 0x80 ≡ b / 128 * 128
unfolding all_below
and_top_bit = agree_on_bytes _ _ refl

module _ (f g : ℕ → ℕ → ℕ) where
  -- Two functions of a width of at most 8 bits and a byte agree if they agree on all of these.
  pub agree_on_widths :
      all_below 9 (λ p. all_below 256 (λ b. f p b == g p b)) ≡ true
      → (p b : ℕ) → p < 9
      → b < 256
      → f p b ≡ g p b
  agree_on_widths h p b hp hb = ==→eq _ _ (
      all_below→true 256 (λ x. f p x == g p x) b
        (all_below→true 9 (λ q. all_below 256 (λ x. f q x == g q x)) p h hp) hb)

-- The `p` low bits of a byte, and the others.
pub and_low_bits : (p b : ℕ) → p < 9 → b < 256 → bit_and b (2 ^ p - 1) ≡ b % 2 ^ p
unfolding all_below
and_low_bits = agree_on_widths _ _ refl

pub and_high_bits : (p b : ℕ) → p < 9 → b < 256 → bit_and b (255 - (2 ^ p - 1)) ≡ b / 2 ^ p * 2 ^ p
unfolding all_below
and_high_bits = agree_on_widths _ _ refl
