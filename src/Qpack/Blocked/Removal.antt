-- ===== src/Qpack/Blocked/Removal.antt =====
-- `new` and `remove` of src/qpack/state/blocked.rs.
use net_wire_rs.Common.{
  ℕ, ◌+◌, ◌-◌, ltb, Bool, true, false, List, [], ◌∷◌, length, Option, none, some, ◌≡◌, refl, sym,
  ap, subst, ◌∙◌, inl, inr, arith, Bool-cases, map, length-map, ltb→le,
}
use net_wire_rs.Common.Result.{ok, checked_sub}
use net_wire_rs.Qpack.Blocked.{
  QpackBlockedStream, QpackBlockedStreams, empty_stream, holds, remove, new,
}
use net_wire_rs.Qpack.Blocked.Scan.{
  count, required, required-none, required_at, IsUpdated, update_first_cases,
}
use net_wire_rs.Qpack.Blocked.Sound.{
  IsWf, Others, is_occupied, count-updated, length-updated, others-updated, holds-occupied,
  holds-other,
}

count-empty :
    (p : QpackBlockedStream → Bool) (rs : List QpackBlockedStream)
    → p empty_stream ≡ false
    → count p (map (λ _. empty_stream) rs) ≡ 0
unfolding count
count-empty p [] h = refl
count-empty p (r ∷ rs) h = rw (h, count-empty p rs h) refl

abbrev fresh : List QpackBlockedStream → ℕ → QpackBlockedStreams
fresh rs maximum = record {
  records = map (λ _. empty_stream) rs;
  maximum_blocked_streams = maximum;
  len = 0;
}

-- New accounting of blocked streams is well formed and no stream is registered in it.
pub new-blocked_IsWf :
    (rs : List QpackBlockedStream) (maximum id : ℕ) (s : QpackBlockedStreams)
    → new rs maximum ≡ ok s
    → IsWf s × (required s.records id ≡ none)
unfolding new
new-blocked_IsWf rs maximum id s e = elim (Bool-cases (ltb (length rs) maximum)) [
  | inl over ↦ absurd (ground arith)
  | inr room ↦
      let same : fresh rs maximum ≡ s = cc room in
      let le = ltb→le (length rs) maximum room in
      subst (λ t. IsWf t × (required t.records id ≡ none)) same
        (
          record {
            counted = sym (count-empty is_occupied rs refl);
            capped = omega arith;
            stored = omega (arith, length-map (λ _. empty_stream) rs);
            once = λ j. omega (arith, count-empty (holds j) rs refl);
          },
          required-none (map (λ _. empty_stream) rs) id (count-empty (holds id) rs refl),
        )
]

-- How `remove` ends.
pub data RemoveOutcome (s : QpackBlockedStreams) (id : ℕ)
    : Option (QpackBlockedStreams × Bool) → Type 0 where
  removed :
      (s' : QpackBlockedStreams) (old : ℕ)
      → required s.records id ≡ some old
      → IsWf s'
      → required s'.records id ≡ none
      → s.len ≡ s'.len + 1
      → Others id s.records s'.records
      → RemoveOutcome s id (some (s', true))
  absent : required s.records id ≡ none → RemoveOutcome s id (some (s, false))

module _ (s : QpackBlockedStreams) (id : ℕ) (w : IsWf s) (rs' : List QpackBlockedStream)
    (u : IsUpdated (holds id) (λ _. empty_stream) s.records rs') where
  less : s.len ≡ count is_occupied rs' + 1
  less =
      let (b, a) = count-updated is_occupied u in
      let (o, _) = holds-occupied id u.here u.holding in
      let before : count is_occupied s.records
          ≡ count is_occupied u.front + (1 + count is_occupied u.back) =
        rw o at b in
      omega (arith, w.counted)

  removed-IsWf : IsWf (record s { records = rs'; len = s.len - 1 })
  removed-IsWf = record {
    counted = omega (arith, less);
    capped = omega (arith, w.capped);
    stored = omega (arith, w.stored, length-updated u);
    once = λ j. let (b, a) = count-updated (holds j) u in omega (arith, w.once j);
  }

  removed-outcome : RemoveOutcome s id (some (record s { records = rs'; len = s.len - 1 }, true))
  removed-outcome =
      let (b, a) = count-updated (holds id) u in
      let before : count (holds id) s.records
          ≡ count (holds id) u.front + (1 + count (holds id) u.back) =
        rw (u.holding) at b in
      let found : required s.records id ≡ some u.here.required_insert_count =
        ap (λ xs. required xs id) u.was ∙ required_at u.front u.back u.here id u.first u.holding in
      let gone : count (holds id) rs' ≡ 0 = omega (arith, w.once id, u.first) in
      let others : Others id s.records rs' =
        λ j ne. others-updated u j (holds-other id j u.here u.holding ne) refl in
      removed (record s { records = rs'; len = s.len - 1 }) u.here.required_insert_count found
        removed-IsWf (required-none rs' id gone) (omega (arith, less)) others

-- On well-formed accounting of blocked streams, `remove` never underflows and says whether the
-- stream was registered; if it was, it is registered no more, no other stream changes, and the
-- accounting stays well formed; otherwise nothing changes.
pub remove-RemoveOutcome :
    (s : QpackBlockedStreams) (id : ℕ) → IsWf s → RemoveOutcome s id (remove s id)
unfolding remove
remove-RemoveOutcome s id w = elim (update_first_cases (holds id) (λ _. empty_stream) s.records) [
  | inl (e, z) ↦ rw (e, remove) (absent (required-none s.records id z))
  | inr (rs', e, u) ↦
      let one : checked_sub s.len 1 ≡ some (s.len - 1) = ground (arith, less s id w rs' u) in
      rw (e, one, remove) (removed-outcome s id w rs' u)
]
