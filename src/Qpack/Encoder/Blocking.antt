-- ===== src/Qpack/Encoder/Blocking.antt =====
-- The streams at risk that src/qpack/state/encoder.rs counts.
use net_wire_rs.Common.{
  ℕ, suc, ◌+◌, ltb, leb, ◌==◌, if◌then◌else◌, Bool, true, not, ◌&&◌, List, [], ◌∷◌, ◌++◌, length,
  some, ◌≡◌, refl, sym, ap, subst, ◌∙◌, inl, inr, arith, Bool-cases, ==→eq, max,
}
use net_wire_rs.Common.Result.{ok, err}
use net_wire_rs.Qpack.Encoder.{
  QpackEncoderState, QpackEncoderOutstandingSection, any, risks, count_blocked,
  blocked_stream_count, check_blocked, blocked_streams_limit_exceeded, largest_of,
}
use net_wire_rs.Qpack.Encoder.Spec.{Outstanding, at_risk, is_at_risk, maximum}
use net_wire_rs.Qpack.Encoder.Represents.{Represents, place, placed}
use net_wire_rs.Qpack.Encoder.Refines.{view, active_sections}

pub largest_of-maximum : (m : ℕ) (xs : List ℕ) → largest_of m xs ≡ maximum m xs
unfolding largest_of maximum
largest_of-maximum m [] = refl
largest_of-maximum m (x ∷ xs) =
    let e : (if ltb m x then x else m) ≡ max m x = ground arith in
    rw e (largest_of-maximum (max m x) xs)

any-place :
    (known id start : ℕ) (es : List Outstanding)
    → any (risks known id) (place start es) ≡ is_at_risk known id es
unfolding any place is_at_risk
any-place known id start [] = refl
any-place known id start (e ∷ es) = rw (any-place known id (start + length e.references) es)

any-snoc {ℓ} :
    {A : Type ℓ} (p : A → Bool) (xs : List A) (x : A)
    → any p (xs ++ (x ∷ [])) ≡ (if p x then true else any p xs)
unfolding any
any-snoc p [] x = refl
any-snoc p (y ∷ ys) x = ground (arith, any-snoc p ys x)

any-cons :
    (x id : ℕ) (seen : List ℕ)
    → (if x == id then true else any (λ i. i == id) seen) ≡ any (λ i. i == id) (x ∷ seen)
unfolding any
any-cons x id seen = refl

already_seen :
    (x id : ℕ) (seen : List ℕ)
    → any (λ i. i == x) seen ≡ true
    → (if x == id then true else any (λ i. i == id) seen) ≡ any (λ i. i == id) seen
already_seen x id seen old = elim (Bool-cases (x == id)) [
  | inl same ↦
      let e = ==→eq x id same in
      rw same (sym (subst (λ (j : ℕ). any (λ i. i == j) seen ≡ true) e old))
  | inr other ↦ rw other
]

-- The code looks for a stream among the sections before, the specification among the streams seen.
count_blocked-at_risk :
    (known start : ℕ) (previous : List QpackEncoderOutstandingSection) (seen : List ℕ)
    (es : List Outstanding)
    → ((id : ℕ) → any (risks known id) previous ≡ any (λ i. i == id) seen)
    → count_blocked known previous (place start es) ≡ length (at_risk known seen es)
unfolding count_blocked place at_risk
count_blocked-at_risk known start previous seen [] h = refl
count_blocked-at_risk known start previous seen (e ∷ es) h =
    let next = start + length e.references in
    let here = placed start e in
    let same = h e.stream_id in
    elim (Bool-cases (ltb known e.required_insert_count)) [
      | inr safe ↦ rw safe (
          count_blocked-at_risk known next (previous ++ (here ∷ [])) seen es
            (λ id. any-snoc (risks known id) previous here ∙ rw safe (h id)))
      | inl risky ↦ elim (Bool-cases (any (λ i. i == e.stream_id) seen)) [
        | inl old ↦
            rw (risky, same, old)
              (count_blocked-at_risk known next (previous ++ (here ∷ [])) seen es (λ id.
                any-snoc (risks known id) previous here
                ∙ rw risky (rw (h id) (already_seen e.stream_id id seen old))))
        | inr new ↦
            rw (risky, same, new)
              (ap suc (
                count_blocked-at_risk known next (previous ++ (here ∷ [])) (e.stream_id ∷ seen) es
                  (λ id.
                    any-snoc (risks known id) previous here
                    ∙ rw risky (rw (h id) (any-cons e.stream_id id seen)))))
      ]
    ]

-- The refusal is decided by the streams at risk.
pub check_blocked-at_risk :
    (s : QpackEncoderState) (es : List Outstanding) (id c : ℕ)
    → Represents s (view s es)
    → check_blocked s id c
      ≡ some (
          if ltb s.known_received_count c
            && (not (is_at_risk s.known_received_count id es)
                && leb s.maximum_blocked_streams (length (at_risk s.known_received_count [] es)))
          then err (blocked_streams_limit_exceeded s.maximum_blocked_streams)
          else ok tt)
unfolding check_blocked blocked_stream_count
check_blocked-at_risk s es id c h =
    let active = active_sections s (view s es) h in
    let known = s.known_received_count in
    let counted : count_blocked known [] (place 0 es) ≡ length (at_risk known [] es) =
      count_blocked-at_risk known 0 [] [] es (λ _. unfold any in refl) in
    let found = any-place known id 0 es in
    elim (Bool-cases (ltb known c)) [
      | inr safe ↦ rw safe
      | inl risky ↦ elim (Bool-cases (is_at_risk known id es)) [
        | inl old ↦ rw (risky, active, found, old)
        | inr new ↦
            elim (Bool-cases (leb s.maximum_blocked_streams (length (at_risk known [] es)))) [
              | inl full ↦ rw (risky, active, found, new, counted, full)
              | inr room ↦ rw (risky, active, found, new, counted, room)
            ]
      ]
    ]
