-- ===== src/Hpack/Integer/Written.antt =====
-- What the writer of src/http2/hpack/integer.rs puts out, in plain arithmetic.
use net_wire_rs.Common.{ℕ, zero, suc, ◌+◌, ◌/◌, ◌%◌, ◌^◌, ◌<◌, bit_and, bit_or, arith}
use net_wire_rs.Common.{List, [], ◌∷◌, ltb, if◌then◌else◌, length, ◌≡◌, refl, ◌∙◌}
use net_wire_rs.Common.Bits.{all_below, agree_on_bytes, and_seven_bits}
use net_wire_rs.Hpack.Integer.{rounds, octets}
use mathlib.Core.WellFounded.{Acc}

-- The groups of seven bits of `r`, lowest first, at most `k + 1` of them.
unfoldable pub groups : ℕ → ℕ → List ℕ
groups zero r = r ∷ []
groups (suc k) r =
    let rest = groups k (r / 128) in if ltb r 128 then r ∷ [] else (r % 128 + 128) ∷ rest

group_bits : (r : ℕ) → bit_and (r % 256) 0x7f ≡ r % 128
group_bits r = and_seven_bits (r % 256) (omega arith) ∙ omega arith

set_top_bit : (b : ℕ) → b < 256 → bit_or (b % 128) 0x80 ≡ b % 128 + 128
unfolding all_below
set_top_bit = agree_on_bytes _ _ refl

pub inner_octet : (r : ℕ) → bit_or (bit_and (r % 256) 0x7f) 0x80 ≡ r % 128 + 128
inner_octet r =
    let e : r % 256 % 128 ≡ r % 128 = omega arith in
    rw (group_bits, ← e) (set_top_bit (r % 256) (omega arith))

pub octets-groups : (k r : ℕ) (w : Acc ◌<◌ r) → r < 128 ^ suc k → octets r w ≡ groups k r
unfolding octets groups
octets-groups zero r (Acc.intro _ smaller) h = ground arith
octets-groups (suc k) r (Acc.intro _ smaller) h =
    grind
      (arith, inner_octet r, λ (w : Acc ◌<◌ (r / 128)). octets-groups k (r / 128) w (omega arith))

-- The source counts the rounds of its writing loop in advance.
pub rounds-octets :
    (k r : ℕ) (w w' : Acc ◌<◌ r) → r < 128 ^ suc k → suc (rounds r w) ≡ length (octets r w')
unfolding octets rounds
rounds-octets zero r (Acc.intro _ smaller) (Acc.intro _ smaller') h = ground arith
rounds-octets (suc k) r (Acc.intro _ smaller) (Acc.intro _ smaller') h =
    grind (arith, λ (w w' : Acc ◌<◌ (r / 128)). rounds-octets k (r / 128) w w' (omega arith))
