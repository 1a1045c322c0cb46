-- ===== src/Qpack/Blocked/Query.antt =====
-- The queries of src/qpack/state/blocked.rs.
use net_wire_rs.Common.{
  ℕ, ◌+◌, ◌≤◌, ltb, if◌then◌else◌, Bool, true, false, List, [], ◌∷◌, Option, none, some, ◌≡◌, refl,
  inl, inr, arith, Bool-cases,
}
use net_wire_rs.Qpack.Blocked.{
  QpackBlockedStream, QpackBlockedStreams, holds, any, contains, is_blocked,
}
use net_wire_rs.Qpack.Blocked.Scan.{count, required}
use net_wire_rs.Qpack.Blocked.Sound.{IsWf}

-- Registered, and with a count above `n`.
abbrev pub awaits : Option ℕ → ℕ → Bool
awaits none n = false
awaits (some c) n = ltb n c

abbrev pub is_some : Option ℕ → Bool
is_some none = false
is_some (some c) = true

abbrev test : ℕ → ℕ → QpackBlockedStream → Bool
test id n r = if holds id r then ltb n r.required_insert_count else false

any-none :
    (id n : ℕ) (rs : List QpackBlockedStream) → count (holds id) rs ≡ 0 → any (test id n) rs ≡ false
unfolding any count
any-none id n [] h = refl
any-none id n (r ∷ rs) h = ground (arith, any-none id n rs)

any-awaits :
    (id n : ℕ) (rs : List QpackBlockedStream)
    → count (holds id) rs ≤ 1
    → any (test id n) rs ≡ awaits (required rs id) n
unfolding any count required
any-awaits id n [] h = refl
any-awaits id n (r ∷ rs) h = elim (Bool-cases (holds id r)) [
  | inr miss ↦ rw miss (any-awaits id n rs (omega arith))
  | inl hit ↦
      let here : 1 + count (holds id) rs ≤ 1 = rw hit at h in
      rw (hit, any-none id n rs (omega arith)) (last (ltb n r.required_insert_count))
]
  where
    last : (b : Bool) → (if b then true else false) ≡ b
    last true = refl
    last false = refl

any-is_some : (id : ℕ) (rs : List QpackBlockedStream) → any (holds id) rs ≡ is_some (required rs id)
unfolding any required
any-is_some id [] = refl
any-is_some id (r ∷ rs) = elim (Bool-cases (holds id r)) [
  | inl hit ↦ rw hit refl
  | inr miss ↦ rw miss (any-is_some id rs)
]

-- On well-formed accounting of blocked streams, `contains` says whether a stream is registered,
-- and `is_blocked` whether it is registered with a count above the given insert count.
is_blocked-required :
    (s : QpackBlockedStreams) (id n : ℕ)
    → IsWf s
    → (contains s id ≡ is_some (required s.records id))
      × (is_blocked s id n ≡ awaits (required s.records id) n)
unfolding contains is_blocked
is_blocked-required s id n w = (any-is_some id s.records, any-awaits id n s.records (w.once id))
