-- ===== src/Qpack/Blocked/Sound.antt =====
-- Each operation of src/qpack/state/blocked.rs on well-formed accounting.
use net_wire_rs.Common.{
  ℕ, ◌+◌, ◌≤◌, ◌<◌, max, leb, ◌==◌, Bool, true, false, not, List, ◌∷◌, length, length-append, none,
  some, ◌≡◌, ◌≢◌, refl, sym, ap, ◌∙◌, inl, inr, arith, Bool-cases, leb→le, leb→lt, ==→eq, eq→==,
}
use net_wire_rs.Common.Result.{Result, ok, err}
use net_wire_rs.Qpack.Blocked.{
  QpackBlockedStream, QpackBlockedStreams, QpackBlockedStreamsError, blocked_streams_limit_exceeded,
  holds, raise, occupy, register_new, register,
}
use net_wire_rs.Qpack.Blocked.Scan.{
  weight, count, required, count-append, count-not, required-none, required_swap, required_at,
  IsUpdated, update_first_cases,
}

abbrev pub is_occupied : QpackBlockedStream → Bool
is_occupied r = r.occupied

-- `len` counts the occupied records, a stream stands in one record at most, and the maximum fits
-- the storage.
pub record IsWf (s : QpackBlockedStreams) : Type 0 where
  pub counted : s.len ≡ count is_occupied s.records
  pub capped : s.len ≤ s.maximum_blocked_streams
  pub stored : s.maximum_blocked_streams ≤ length s.records
  pub once : (j : ℕ) → count (holds j) s.records ≤ 1

abbrev pub Others : ℕ → List QpackBlockedStream → List QpackBlockedStream → Type 0
Others id rs rs' = (j : ℕ) → j ≢ id → required rs' j ≡ required rs j

pub holds-occupied :
    (id : ℕ) (r : QpackBlockedStream) → holds id r ≡ true → (r.occupied ≡ true) × (r.stream_id ≡ id)
holds-occupied id r h = ground arith

pub holds-other :
    (id j : ℕ) (r : QpackBlockedStream) → holds id r ≡ true → j ≢ id → holds j r ≡ false
holds-other id j r h ne = let (o, e) = holds-occupied id r h in rw o (ground arith)

holds-vacant : (j : ℕ) (r : QpackBlockedStream) → not r.occupied ≡ true → holds j r ≡ false
holds-vacant j r h = ground arith

occupied-vacant : (r : QpackBlockedStream) → not r.occupied ≡ true → r.occupied ≡ false
occupied-vacant r h = ground arith

-- What a test counts before and after an update.
pub count-updated :
    {p : QpackBlockedStream → Bool} {f : QpackBlockedStream → QpackBlockedStream}
    {rs rs' : List QpackBlockedStream} (q : QpackBlockedStream → Bool) (u : IsUpdated p f rs rs')
    → (count q rs ≡ count q u.front + (weight (q u.here) + count q u.back))
      × (count q rs' ≡ count q u.front + (weight (q (f u.here)) + count q u.back))
count-updated {f = f} q u = (
  ap (count q) u.was ∙ count-append q u.front (u.here ∷ u.back) ∙ unfold count in refl,
  ap (count q) u.is_now ∙ count-append q u.front (f u.here ∷ u.back) ∙ unfold count in refl,
)

pub length-updated :
    {p : QpackBlockedStream → Bool} {f : QpackBlockedStream → QpackBlockedStream}
    {rs rs' : List QpackBlockedStream} (u : IsUpdated p f rs rs')
    → length rs' ≡ length rs
length-updated {f = f} u =
    ap length u.is_now
    ∙ length-append u.front (f u.here ∷ u.back)
    ∙ sym (ap length u.was ∙ length-append u.front (u.here ∷ u.back))

pub others-updated :
    {p : QpackBlockedStream → Bool} {f : QpackBlockedStream → QpackBlockedStream}
    {rs rs' : List QpackBlockedStream} (u : IsUpdated p f rs rs') (j : ℕ)
    → holds j u.here ≡ false
    → holds j (f u.here) ≡ false
    → required rs' j ≡ required rs j
others-updated {f = f} u j h k =
    ap (λ xs. required xs j) u.is_now
    ∙ required_swap u.front u.back (f u.here) u.here j k h
    ∙ sym (ap (λ xs. required xs j) u.was)

-- How `register` ends: the stream's count is raised, the stream is added, or the limit is met.
pub data RegisterOutcome (s : QpackBlockedStreams) (id c : ℕ)
    : QpackBlockedStreams × Result QpackBlockedStreamsError (Unit {0}) → Type 0 where
  raised :
      (s' : QpackBlockedStreams) (old : ℕ)
      → required s.records id ≡ some old
      → IsWf s'
      → required s'.records id ≡ some (max old c)
      → s'.len ≡ s.len
      → Others id s.records s'.records
      → RegisterOutcome s id c (s', ok tt)
  added :
      (s' : QpackBlockedStreams)
      → required s.records id ≡ none
      → IsWf s'
      → required s'.records id ≡ some c
      → s'.len ≡ s.len + 1
      → Others id s.records s'.records
      → RegisterOutcome s id c (s', ok tt)
  refused :
      {e : QpackBlockedStreamsError}
      → required s.records id ≡ none
      → s.len ≡ s.maximum_blocked_streams
      → e ≡ blocked_streams_limit_exceeded s.maximum_blocked_streams
      → RegisterOutcome s id c (s, err e)

module _ (s : QpackBlockedStreams) (id c : ℕ) (w : IsWf s) where
  raised-IsWf :
      (rs' : List QpackBlockedStream)
      → IsUpdated (holds id) (raise c) s.records rs'
      → IsWf (record s { records = rs' })
  raised-IsWf rs' u =
      let (before, after) = count-updated is_occupied u in
      record {
        counted = w.counted ∙ before ∙ sym after;
        capped = w.capped;
        stored = omega (arith, w.stored, length-updated u);
        once = λ j. let (b, a) = count-updated (holds j) u in omega (arith, w.once j);
      }

  raised-outcome :
      (rs' : List QpackBlockedStream)
      → IsUpdated (holds id) (raise c) s.records rs'
      → RegisterOutcome s id c (record s { records = rs' }, ok tt)
  raised-outcome rs' u =
      let found : required s.records id ≡ some u.here.required_insert_count =
        ap (λ xs. required xs id) u.was ∙ required_at u.front u.back u.here id u.first u.holding in
      let found' : required rs' id ≡ some (max u.here.required_insert_count c) =
        ap (λ xs. required xs id) u.is_now
        ∙ required_at u.front u.back (raise c u.here) id u.first u.holding in
      let others : Others id s.records rs' = λ j ne.
        others-updated u j (holds-other id j u.here u.holding ne)
          (holds-other id j u.here u.holding ne) in
      raised (record s { records = rs' }) u.here.required_insert_count found (raised-IsWf rs' u)
        found' refl others

  module _ (absent : count (holds id) s.records ≡ 0) (room : s.len < s.maximum_blocked_streams)
      (rs' : List QpackBlockedStream)
      (u : IsUpdated (λ r. not r.occupied) (occupy id c) s.records rs') where
    added-once : (j : ℕ) → count (holds j) rs' ≤ 1
    added-once j =
        let (b, a) = count-updated (holds j) u in
        let clear : holds j u.here ≡ false = holds-vacant j u.here u.holding in
        let before : count (holds j) s.records
            ≡ count (holds j) u.front + (0 + count (holds j) u.back) =
          rw clear at b in
        elim (Bool-cases (id == j)) [
          | inl same ↦
              let e : j ≡ id = sym (==→eq id j same) in
              let none_yet : count (holds j) s.records ≡ 0 = rw e absent in
              let after : count (holds j) rs'
                  ≡ count (holds j) u.front + (1 + count (holds j) u.back) =
                rw same at a in
              omega arith
          | inr other ↦
              let after : count (holds j) rs'
                  ≡ count (holds j) u.front + (0 + count (holds j) u.back) =
                rw other at a in
              omega (arith, w.once j)
        ]

    added-IsWf : IsWf (record s { records = rs'; len = s.len + 1 })
    added-IsWf =
        let (b, a) = count-updated is_occupied u in
        let clear : u.here.occupied ≡ false = occupied-vacant u.here u.holding in
        let before : count is_occupied s.records
            ≡ count is_occupied u.front + (0 + count is_occupied u.back) =
          rw clear at b in
        record {
          counted = omega (arith, w.counted);
          capped = omega arith;
          stored = omega (arith, w.stored, length-updated u);
          once = added-once;
        }

    added-outcome : RegisterOutcome s id c (record s { records = rs'; len = s.len + 1 }, ok tt)
    added-outcome =
        let (b, a) = count-updated (holds id) u in
        let same : (id == id) ≡ true = eq→== id id refl in
        let found : required rs' id ≡ some c =
          ap (λ xs. required xs id) u.is_now
          ∙ required_at u.front u.back (occupy id c u.here) id (omega arith) same in
        let others : Others id s.records rs' = λ j ne.
          others-updated u j (holds-vacant j u.here u.holding)
            (holds-other id j (occupy id c u.here) same ne) in
        added (record s { records = rs'; len = s.len + 1 }) (required-none s.records id absent)
          added-IsWf found refl others

  register_new-outcome :
      count (holds id) s.records ≡ 0 → RegisterOutcome s id c (register_new s id c)
  unfolding register_new
  register_new-outcome absent = elim (Bool-cases (leb s.maximum_blocked_streams s.len)) [
    | inl full ↦
        let at_limit : s.len ≡ s.maximum_blocked_streams =
          omega (arith, leb→le s.maximum_blocked_streams s.len full, w.capped) in
        rw full (refused (required-none s.records id absent) at_limit refl)
    | inr spare ↦
        let room = leb→lt s.maximum_blocked_streams s.len spare in
        elim (update_first_cases (λ r. not r.occupied) (occupy id c) s.records) [
          | inl (e, z) ↦
              absurd (omega (arith, count-not is_occupied s.records, w.counted, w.stored))
          | inr (rs', e, u) ↦ rw (spare, e) (added-outcome absent room rs' u)
        ]
  ]

  -- On well-formed accounting of blocked streams, `register` raises the count of a registered
  -- stream to the greater of both, adds one that is not registered while the limit allows, and
  -- refuses only a stream that is not registered when as many as the limit are, changing nothing;
  -- no other stream changes and the accounting stays well formed.
  pub register-RegisterOutcome : RegisterOutcome s id c (register s id c)
  unfolding register
  register-RegisterOutcome = elim (update_first_cases (holds id) (raise c) s.records) [
    | inl (e, z) ↦ rw (e, register) (register_new-outcome z)
    | inr (rs', e, u) ↦ rw (e, register) (raised-outcome rs' u)
  ]
