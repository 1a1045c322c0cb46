-- ===== src/Qpack/Encoder/Protection.antt =====
-- `is_evictable` of src/qpack/state/encoder.rs as the test that src/qpack/table/dynamic.rs asks
-- before it evicts.
use net_wire_rs.Common.{
  ℕ, ◌+◌, ◌≤◌, ◌<◌, ltb, ◌==◌, ◌&&◌, not, Bool, true, false, List, none, some, length, take, ◌≡◌,
  sym, ap, ◌∙◌, ◌⊎◌, inl, inr, arith, Bool-cases, le→ltb, length-append,
}
use net_wire_rs.Common.Result.{ok, word}
use net_wire_rs.Common.Slices.{take-length_eq, slice_to}
use net_wire_rs.Qpack.Table.{QpackDynamicTable, get_absolute, insert}
use net_wire_rs.Qpack.Table.Sound.{IsWf}
use net_wire_rs.Qpack.Table.Index.{IsActive}
use net_wire_rs.Qpack.Table.Evicting.{insert-stable, insert-evictable}
use net_wire_rs.Qpack.Encoder.{QpackEncoderState, any, is_evictable}
use net_wire_rs.Qpack.Encoder.Spec.{Accounting, all_references}
use net_wire_rs.Qpack.Encoder.Represents.{Represents}
use native.Mathlib.Decide.{dec_lt}

-- An outstanding section refers to the entry.
unfoldable pub is_referenced : Accounting → ℕ → Bool
unfolding any all_references
is_referenced a absolute = any (λ r. r == absolute) (all_references a.outstanding)

active_references :
    (s : QpackEncoderState) (a : Accounting)
    → Represents s a
    → slice_to s.references s.reference_len ≡ some (all_references a.outstanding)
active_references s a h =
    let room : s.reference_len ≤ length s.references = omega (
      arith,
      ap length h.references,
      length-append (all_references a.outstanding) h.spare_references,
      h.reference_len,
    ) in
    let front : take s.reference_len s.references ≡ all_references a.outstanding =
      ap (take s.reference_len) h.references
      ∙ take-length_eq s.reference_len (all_references a.outstanding) h.spare_references
          (sym h.reference_len) in
    rw (le→ltb (length s.references) s.reference_len room, front)

-- An entry is evictable if it was confirmed and no outstanding section refers to it.
pub is_evictable-Represents :
    (s : QpackEncoderState) (a : Accounting) (absolute : ℕ)
    → Represents s a
    → is_evictable s absolute
      ≡ some (ltb absolute a.known_received_count && not (is_referenced a absolute))
unfolding is_evictable is_referenced
is_evictable-Represents s a absolute h =
    let held = active_references s a h in
    let known = ap (λ (k : ℕ). ltb absolute k) h.known in
    elim (Bool-cases (ltb absolute s.known_received_count)) [
      | inl received ↦ rw (received, held, sym known ∙ received)
      | inr unknown ↦ rw (unknown, sym known ∙ unknown)
    ]

-- The closure over the state that the table is given.
unfoldable pub evictable_by : QpackEncoderState → ℕ → Bool
evictable_by s absolute = elim (is_evictable s absolute) [ none ↦ false | some answer ↦ answer ]

evictable_by-lt :
    (s : QpackEncoderState) (a : Accounting) (absolute : ℕ)
    → Represents s a
    → evictable_by s absolute ≡ true
    → (absolute < a.known_received_count) × (is_referenced a absolute ≡ false)
unfolding evictable_by
evictable_by-lt s a absolute h e =
    let answer = is_evictable-Represents s a absolute h in
    elim (Bool-cases (ltb absolute a.known_received_count)) [
      | inl received ↦ elim (Bool-cases (is_referenced a absolute)) [
        | inl held ↦ ground (arith, answer)
        | inr unheld ↦ (ground arith, unheld)
      ]
      | inr unknown ↦ ground (arith, answer)
    ]

module _ (s : QpackEncoderState) (a : Accounting) (t t' : QpackDynamicTable) (name value : List ℕ)
    (absolute : ℕ) (h : Represents s a) (w : IsWf t)
    (small : length name + length value + 32 < word)
    (e : insert t name value (evictable_by s) ≡ some (t', ok absolute)) where
  -- If the QPACK table asks the encoder state before it evicts, a successful insertion of an entry
  -- whose size is a usize leaves every active entry active, with the same field, that an
  -- outstanding section refers to or that the decoder has not confirmed.
  pub insert-keeps_references :
      (b : ℕ)
      → IsActive t b
      → (is_referenced a b ≡ true) ⊎ (a.known_received_count ≤ b)
      → IsActive t' b × (get_absolute t' b ≡ get_absolute t b)
  insert-keeps_references b active needed =
      let stays : IsActive t' b = elim (dec_active t' b) [
        | inl yes' ↦ yes'
        | inr gone ↦
            let asked = evictable_by-lt s a b h (
              insert-evictable t t' name value (evictable_by s) absolute w small e b active gone) in
            elim needed [ inl held ↦ cc (asked.1) | inr late ↦ absurd (omega (arith, asked.0)) ]
      ] in
      (
        stays,
        (insert-stable t t' name value (evictable_by s) absolute w small e b active.0 stays).1,
      )
    where
      dec_active : (u : QpackDynamicTable) (b : ℕ) → IsActive u b ⊎ (¬ IsActive u b)
      dec_active u b = elim (dec_lt b u.insert_count) [
        | yes p ↦ elim (dec_lt (b + u.len) u.insert_count) [
          | yes q ↦ inr (λ x. omega arith)
          | no q ↦ inl (p, omega arith)
        ]
        | no p ↦ inr (λ x. omega arith)
      ]
