-- ===== src/Qpack/Encoder/Limit.antt =====
-- The limit on streams at risk in src/qpack/state/encoder.rs, over the sections that it accounts
-- for.
use net_wire_rs.Common.{
  ℕ, suc, ◌≤◌, ◌<◌, ltb, ◌==◌, if◌then◌else◌, true, false, List, [], ◌∷◌, ◌++◌, All, length, ◌≡◌,
  refl, sym, ap, subst, ◌⊎◌, inl, inr, arith, Bool-cases, ==→eq,
}
use net_wire_rs.Qpack.Encoder.{any}
use net_wire_rs.Qpack.Encoder.Spec.{Outstanding, Accounting, at_risk, is_at_risk, without}

-- Stream identifiers that differ from one another.
abbrev pub AreDistinct : List ℕ → Type 0
AreDistinct [] = Unit {0}
AreDistinct (x ∷ xs) = (any (λ i. i == x) xs ≡ false) × AreDistinct xs

-- No more distinct streams than the peer allows have a section that it may not be able to decode.
abbrev pub IsWithinLimit : Accounting → Type 0
IsWithinLimit a =
    (ids : List ℕ)
    → AreDistinct ids
    → All (λ id. is_at_risk a.known_received_count id a.outstanding ≡ true) ids
    → length ids ≤ a.maximum_blocked_streams

erase : ℕ → List ℕ → List ℕ
erase x [] = []
erase x (y ∷ ys) = let rest = erase x ys in if y == x then ys else y ∷ rest

length-erase :
    (x : ℕ) (ys : List ℕ) → any (λ i. i == x) ys ≡ true → length ys ≡ suc (length (erase x ys))
unfolding any erase
length-erase x [] h = cc
length-erase x (y ∷ ys) h = elim (Bool-cases (y == x)) [
  | inl same ↦ rw same
  | inr other ↦ rw other (ap suc (length-erase x ys (rw other at h)))
]

any-erase :
    (x z : ℕ) (ys : List ℕ)
    → (x == z) ≡ false
    → any (λ i. i == z) ys ≡ true
    → any (λ i. i == z) (erase x ys) ≡ true
unfolding any erase
any-erase x z [] d h = cc
any-erase x z (y ∷ ys) d h = elim (Bool-cases (y == x)) [
  | inl same ↦
      let e : y ≡ x = ==→eq y x same in let d' : (y == z) ≡ false = rw e d in rw same (rw d' at h)
  | inr other ↦ elim (Bool-cases (y == z)) [
    | inl here ↦ rw (other, here)
    | inr there ↦ rw (other, there) (any-erase x z ys d (rw there at h))
  ]
]

-- Distinct numbers that all stand in a list are no more than it is long.
All-erase :
    (x : ℕ) (xs ys : List ℕ)
    → any (λ i. i == x) xs ≡ false
    → All (λ z. any (λ i. i == z) ys ≡ true) xs
    → All (λ z. any (λ i. i == z) (erase x ys) ≡ true) xs
unfolding any
All-erase x [] ys d h = tt
All-erase x (z ∷ zs) ys d (here, rest) = elim (Bool-cases (z == x)) [
  | inl same ↦ absurd (ground (arith, rw same at d))
  | inr other ↦
      let other' : (x == z) ≡ false = ground arith in
      (any-erase x z ys other' here, All-erase x zs ys (rw other at d) rest)
]

pigeonhole :
    (xs ys : List ℕ)
    → AreDistinct xs
    → All (λ z. any (λ i. i == z) ys ≡ true) xs
    → length xs ≤ length ys
pigeonhole [] ys d h = omega arith
pigeonhole (x ∷ xs) ys (new, d) (here, rest) =
    omega (arith, length-erase x ys here, pigeonhole xs (erase x ys) d (All-erase x xs ys new rest))

-- A stream at risk that was not seen is found.
at_risk_covers :
    (known id : ℕ) (seen : List ℕ) (es : List Outstanding)
    → any (λ i. i == id) seen ≡ false
    → is_at_risk known id es ≡ true
    → any (λ i. i == id) (at_risk known seen es) ≡ true
unfolding at_risk is_at_risk any
at_risk_covers known id seen [] new h = cc
at_risk_covers known id seen (e ∷ es) new h =
    elim (Bool-cases (ltb known e.required_insert_count)) [
      | inr safe ↦ rw safe (at_risk_covers known id seen es new (rw safe at h))
      | inl risky ↦ elim (Bool-cases (e.stream_id == id)) [
        | inl same ↦
            let there = ==→eq e.stream_id id same in
            let unseen : any (λ i. i == e.stream_id) seen ≡ false =
              subst (λ (x : ℕ). any (λ i. i == x) seen ≡ false) (sym there) new in
            rw (risky, unseen, same)
        | inr other ↦
            let rest : is_at_risk known id es ≡ true = rw (risky, other) at h in
            elim (Bool-cases (any (λ i. i == e.stream_id) seen)) [
              | inl old ↦ rw (risky, old) (at_risk_covers known id seen es new rest)
              | inr unseen ↦
                  rw (risky, unseen, other)
                    (at_risk_covers known id (e.stream_id ∷ seen) es (rw other new) rest)
            ]
      ]
    ]

is_at_risk-append :
    (known id : ℕ) (es fs : List Outstanding)
    → is_at_risk known id (es ++ fs)
      ≡ (if is_at_risk known id es then true else is_at_risk known id fs)
unfolding is_at_risk any
is_at_risk-append known id [] fs = refl
is_at_risk-append known id (e ∷ es) fs = ground (arith, is_at_risk-append known id es fs)

-- A greater Known Received Count and fewer sections put no further stream at risk.
pub is_at_risk-known :
    (known known' id : ℕ) (es : List Outstanding)
    → known ≤ known'
    → is_at_risk known' id es ≡ true
    → is_at_risk known id es ≡ true
unfolding is_at_risk any
is_at_risk-known known known' id [] h r = r
is_at_risk-known known known' id (e ∷ es) h r =
    ground (arith, is_at_risk-known known known' id es h)

pub is_at_risk-without :
    (known id stream : ℕ) (es : List Outstanding)
    → is_at_risk known id (without stream es) ≡ true
    → is_at_risk known id es ≡ true
unfolding is_at_risk any without
is_at_risk-without known id stream [] r = r
is_at_risk-without known id stream (e ∷ es) r =
    ground (arith, is_at_risk-without known id stream es)

pub is_at_risk-taken_out :
    (known id : ℕ) (before : List Outstanding) (e : Outstanding) (after : List Outstanding)
    → is_at_risk known id (before ++ after) ≡ true
    → is_at_risk known id (before ++ (e ∷ after)) ≡ true
unfolding is_at_risk any
is_at_risk-taken_out known id before e after r =
    ground (
      arith,
      is_at_risk-append known id before after,
      is_at_risk-append known id before (e ∷ after),
    )

-- A section is appended where its stream is at risk already, or the streams at risk are fewer than
-- the limit, or the peer can decode it.
covered_by :
    (known id : ℕ) (es : List Outstanding) (e : Outstanding)
    → is_at_risk known id (es ++ (e ∷ [])) ≡ true
    → any (λ i. i == id) (e.stream_id ∷ at_risk known [] es) ≡ true
unfolding any is_at_risk
covered_by known id es e h = elim (Bool-cases (e.stream_id == id)) [
  | inl same ↦ rw same
  | inr other ↦ elim (Bool-cases (is_at_risk known id es)) [
    | inl old ↦ rw other (at_risk_covers known id [] es refl old)
    | inr new ↦ absurd (ground (arith, is_at_risk-append known id es (e ∷ [])))
  ]
]

All-covered_by :
    (known : ℕ) (es : List Outstanding) (e : Outstanding) (ids : List ℕ)
    → All (λ id. is_at_risk known id (es ++ (e ∷ [])) ≡ true) ids
    → All (λ id. any (λ i. i == id) (e.stream_id ∷ at_risk known [] es) ≡ true) ids
All-covered_by known es e [] h = tt
All-covered_by known es e (id ∷ ids) (here, rest) =
    (covered_by known id es e here, All-covered_by known es e ids rest)

pub IsWithinLimit-fewer :
    (a b : Accounting)
    → a.maximum_blocked_streams ≡ b.maximum_blocked_streams
    → ((id : ℕ)
        → is_at_risk b.known_received_count id b.outstanding ≡ true
        → is_at_risk a.known_received_count id a.outstanding ≡ true)
    → IsWithinLimit a
    → IsWithinLimit b
IsWithinLimit-fewer a b most fewer w ids d h = omega (arith, w ids d (fewer_all ids h), most)
  where
    fewer_all :
        (xs : List ℕ)
        → All (λ id. is_at_risk b.known_received_count id b.outstanding ≡ true) xs
        → All (λ id. is_at_risk a.known_received_count id a.outstanding ≡ true) xs
    fewer_all [] x = tt
    fewer_all (y ∷ ys) (p, q) = (fewer y p, fewer_all ys q)

pub IsWithinLimit-new :
    (a : Accounting) (e : Outstanding)
    → length (at_risk a.known_received_count [] a.outstanding) < a.maximum_blocked_streams
    → IsWithinLimit (record a { outstanding = a.outstanding ++ (e ∷ []) })
IsWithinLimit-new a e room ids d h = omega (
  arith,
  pigeonhole ids (e.stream_id ∷ at_risk a.known_received_count [] a.outstanding) d
      (All-covered_by a.known_received_count a.outstanding e ids h),
)

-- If the peer can decode a section, or its stream is at risk already, appending it puts no further
-- stream at risk.
pub is_at_risk-appended :
    (known id : ℕ) (es : List Outstanding) (e : Outstanding)
    → (ltb known e.required_insert_count ≡ false) ⊎ (is_at_risk known e.stream_id es ≡ true)
    → is_at_risk known id (es ++ (e ∷ [])) ≡ true
    → is_at_risk known id es ≡ true
unfolding any is_at_risk
is_at_risk-appended known id es e (inl safe) h =
    ground (arith, is_at_risk-append known id es (e ∷ []))
is_at_risk-appended known id es e (inr old) h = elim (Bool-cases (e.stream_id == id)) [
  | inl same ↦ rw (==→eq e.stream_id id same) at old
  | inr other ↦ ground (arith, is_at_risk-append known id es (e ∷ []))
]
