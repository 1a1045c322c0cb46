-- ===== src/Qpack/Blocked/Scan.antt =====
-- The loops of src/qpack/state/blocked.rs over the records, and the count that a stream awaits.
use net_wire_rs.Common.{
  ℕ, ◌+◌, if◌then◌else◌, Bool, true, false, not, List, [], ◌∷◌, ◌++◌, length, Option, none, some,
  ◌≡◌, refl, ap, ◌⊎◌, inl, inr, arith, Bool-cases,
}
use net_wire_rs.Qpack.Blocked.{QpackBlockedStream, holds, update_first}

abbrev pub weight : Bool → ℕ
weight b = if b then 1 else 0

-- How many records satisfy a test.
unfoldable pub count : (QpackBlockedStream → Bool) → List QpackBlockedStream → ℕ
count p [] = 0
count p (r ∷ rs) = weight (p r) + count p rs

-- The Required Insert Count that a stream is registered with.
unfoldable pub required : List QpackBlockedStream → ℕ → Option ℕ
required [] id = none
required (r ∷ rs) id =
    let rest = required rs id in if holds id r then some r.required_insert_count else rest

pub count-append :
    (p : QpackBlockedStream → Bool) (xs ys : List QpackBlockedStream)
    → count p (xs ++ ys) ≡ count p xs + count p ys
unfolding count
count-append p [] ys = omega arith
count-append p (x ∷ xs) ys = omega (arith, count-append p xs ys)

pub count-not :
    (p : QpackBlockedStream → Bool) (xs : List QpackBlockedStream)
    → count p xs + count (λ r. not (p r)) xs ≡ length xs
unfolding count
count-not p [] = refl
count-not p (x ∷ xs) = ground (arith, count-not p xs)

pub required-none :
    (xs : List QpackBlockedStream) (id : ℕ) → count (holds id) xs ≡ 0 → required xs id ≡ none
unfolding required count
required-none [] id h = refl
required-none (x ∷ xs) id h = ground (arith, required-none xs id)

-- A record that does not hold the stream makes no difference to it.
pub required_swap :
    (xs ys : List QpackBlockedStream) (r s : QpackBlockedStream) (id : ℕ)
    → holds id r ≡ false
    → holds id s ≡ false
    → required (xs ++ (r ∷ ys)) id ≡ required (xs ++ (s ∷ ys)) id
unfolding required
required_swap [] ys r s id h k = rw (h, k) refl
required_swap (x ∷ xs) ys r s id h k = rw (required_swap xs ys r s id h k) refl

pub required_at :
    (xs ys : List QpackBlockedStream) (r : QpackBlockedStream) (id : ℕ)
    → count (holds id) xs ≡ 0
    → holds id r ≡ true
    → required (xs ++ (r ∷ ys)) id ≡ some r.required_insert_count
unfolding required count
required_at [] ys r id h k = rw k refl
required_at (x ∷ xs) ys r id h k = elim (Bool-cases (holds id x)) [
  | inl t ↦ absurd (ground arith)
  | inr f ↦ rw f (required_at xs ys r id (ground arith) k)
]

-- The loop changed the first record that satisfies the test.
pub record IsUpdated (p : QpackBlockedStream → Bool) (f : QpackBlockedStream → QpackBlockedStream)
    (rs rs' : List QpackBlockedStream) : Type 0 where
  pub front : List QpackBlockedStream
  pub here : QpackBlockedStream
  pub back : List QpackBlockedStream
  pub was : rs ≡ front ++ (here ∷ back)
  pub is_now : rs' ≡ front ++ (f here ∷ back)
  pub first : count p front ≡ 0
  pub holding : p here ≡ true

module _ (p : QpackBlockedStream → Bool) (f : QpackBlockedStream → QpackBlockedStream) where
  pub update_first_cases :
      (rs : List QpackBlockedStream)
      → ((update_first p f rs ≡ none) × (count p rs ≡ 0))
        ⊎ ((rs' : List QpackBlockedStream) × (update_first p f rs ≡ some rs')
            × IsUpdated p f rs rs')
  unfolding update_first count
  update_first_cases [] = inl (refl, refl)
  update_first_cases (r ∷ rs) = elim (Bool-cases (p r)) [
    | inl hit ↦ rw hit (
        inr (
          f r ∷ rs,
          refl,
          record {
            front = [];
            here = r;
            back = rs;
            was = refl;
            is_now = refl;
            first = refl;
            holding = hit;
          },
        ))
    | inr miss ↦ elim (update_first_cases rs) [
      | inl (e, z) ↦ rw (miss, e, z) (inl (refl, refl))
      | inr (rs', e, u) ↦
          rw (miss, e)
            (inr (
              r ∷ rs',
              refl,
              record {
                front = r ∷ u.front;
                here = u.here;
                back = u.back;
                was = ap (◌∷◌ r) u.was;
                is_now = ap (◌∷◌ r) u.is_now;
                first = rw miss (omega (arith, u.first));
                holding = u.holding;
              },
            ))
    ]
  ]
