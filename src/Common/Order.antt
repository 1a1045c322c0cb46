-- ===== src/Common/Order.antt =====
-- `<` on the native numbers is well founded.
use mathlib.Core.WellFounded.{Acc, WellFounded}
use Prim.Native.Nat.{ℕ, zero, suc, ◌<◌}
use native.Mathlib.Omega.{arith}

acc_under : (bound n : ℕ) → n < bound → Acc ◌<◌ n
acc_under zero n h = absurd (omega arith)
acc_under (suc bound) n h = Acc.intro n (λ m hm. acc_under bound m (omega arith))

unfoldable pub lt_wf : WellFounded ◌<◌
unfolding acc_under
lt_wf = record { apply = λ n. acc_under (suc n) n (omega arith) }
