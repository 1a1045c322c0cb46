-- ===== src/Qpack/Table/Index.antt =====
-- Absolute indexes of src/qpack/table/dynamic.rs: what they find, and the relative forms.
use net_wire_rs.Common.{ℕ, ◌+◌, ◌-◌, ◌≤◌, ◌<◌, ltb, leb, length, take, drop, get_elem?, arith}
use net_wire_rs.Common.{List, some, false, ◌≡◌, ◌⊎◌, inl, inr}
use net_wire_rs.Common.{le→ltb, ltb→lt, ltb→le, Bool-cases}
use net_wire_rs.Common.Result.{ok, err, checked_sub}
use net_wire_rs.Packed.Evict.{take-suc}
use net_wire_rs.Packed.Layout.{Field}
use net_wire_rs.Packed.Push.{field_at}
use net_wire_rs.Qpack.Table.{
  QpackDynamicTable, future_absolute_index, evicted_absolute_index,
  encoder_relative_index_underflow, oldest_active_absolute, unwrap_or, slice, read_slot,
  get_absolute, get_encoder_relative,
}
use net_wire_rs.Qpack.Table.Sound.{IsWf, contents}

-- The entry with this absolute index was inserted and not evicted.
abbrev pub IsActive : QpackDynamicTable → ℕ → Type 0
IsActive t absolute = (absolute < t.insert_count) × (t.insert_count ≤ absolute + t.len)

slice-at :
    (xs : List ℕ) (from n : ℕ)
    → from + n ≤ length xs
    → slice xs from (from + n) ≡ some (take n (drop from xs))
unfolding slice
slice-at xs from n h =
    let len : from + n - from ≡ n = omega arith in
    rw (le→ltb (from + n) from (omega arith), le→ltb (length xs) (from + n) h, len)

read_slot-contents :
    (t : QpackDynamicTable) (slot : ℕ)
    → IsWf t
    → slot < t.len
    → (f : Field) × (read_slot t slot ≡ some f) × (get_elem? (contents t) slot ≡ some f)
unfolding read_slot
read_slot-contents t slot w h =
    let (e, at, front) = take-suc slot t.entries (omega (arith, w.packed.within)) in
    let (found, bound) =
      field_at t.storage t.entries t.len t.size t.capacity slot e w.packed h at in
    (
      (
        take e.name_len (drop e.offset t.storage),
        take e.value_len (drop (e.offset + e.name_len) t.storage),
      ),
      rw (
        at,
        slice-at t.storage e.offset e.name_len (omega arith),
        slice-at t.storage (e.offset + e.name_len) e.value_len bound,
      ),
      found,
    )

-- The oldest index that is left, or the insert count of an empty table.
oldest :
    (t : QpackDynamicTable)
    → IsWf t
    → unwrap_or (oldest_active_absolute t) t.insert_count ≡ t.insert_count - t.len
unfolding oldest_active_absolute
oldest t w = ground (arith, w.counted)

get_absolute-active :
    (t : QpackDynamicTable) (absolute : ℕ) (f : Field)
    → IsWf t
    → absolute < t.insert_count
    → t.insert_count ≤ absolute + t.len
    → read_slot t (t.insert_count - absolute - 1) ≡ some f
    → get_absolute t absolute ≡ some (ok f)
unfolding get_absolute
get_absolute-active t absolute f w lt ge e =
    let past : leb t.insert_count absolute ≡ false = ground arith in
    let kept : ltb absolute (t.insert_count - t.len) ≡ false = le→ltb absolute _ (omega arith) in
    rw (past, oldest t w, kept, e, get_absolute)

-- On a well-formed QPACK table, `get_absolute` of an active index finds the field at its place
-- from the newest; of any other index it reports whether the entry is still to come or was
-- evicted.
pub get_absolute_cases :
    (t : QpackDynamicTable) (absolute : ℕ)
    → IsWf t
    → (IsActive t absolute
        × ((f : Field) × (get_absolute t absolute ≡ some (ok f))
            × (get_elem? (contents t) (t.insert_count - absolute - 1) ≡ some f)))
      ⊎ (((t.insert_count ≤ absolute)
            × (get_absolute t absolute
                ≡ some (err (future_absolute_index absolute t.insert_count))))
          ⊎ ((absolute + t.len < t.insert_count)
              × (get_absolute t absolute
                  ≡ some (err (evicted_absolute_index absolute (t.insert_count - t.len))))))
unfolding get_absolute
get_absolute_cases t absolute w = elim (Bool-cases (leb t.insert_count absolute)) [
  | inl future ↦ inr (inl (ground arith, rw future))
  | inr past ↦
      let old = oldest t w in
      elim (Bool-cases (ltb absolute (t.insert_count - t.len))) [
        | inl gone ↦ inr (inr (omega (arith, ltb→lt absolute _ gone), rw (past, old, gone)))
        | inr active ↦
            let lt : absolute < t.insert_count = ground arith in
            let ge : t.insert_count ≤ absolute + t.len = omega (arith, ltb→le absolute _ active) in
            let (f, e, at) = read_slot-contents t (t.insert_count - absolute - 1) w (omega arith) in
            inl ((lt, ge), (f, get_absolute-active t absolute f w lt ge e, at))
      ]
]

encoder_relative-at :
    (t : QpackDynamicTable) (relative : ℕ) (f : Field)
    → relative < t.insert_count
    → get_absolute t (t.insert_count - relative - 1) ≡ some (ok f)
    → get_encoder_relative t relative ≡ some (ok f)
unfolding get_encoder_relative
encoder_relative-at t relative f h e =
    let count : checked_sub t.insert_count relative ≡ some (t.insert_count - relative) =
      ground arith in
    let index : checked_sub (t.insert_count - relative) 1 ≡ some (t.insert_count - relative - 1) =
      ground arith in
    rw (count, index, get_encoder_relative) e

encoder_relative-none :
    (t : QpackDynamicTable) (relative : ℕ)
    → t.insert_count ≤ relative
    → get_encoder_relative t relative
      ≡ some (err (encoder_relative_index_underflow t.insert_count relative))
unfolding get_encoder_relative
encoder_relative-none t relative h = ground arith

-- The encoder's relative index `r` is the `r`-th newest field; from the insert count on it is
-- refused.
pub get_encoder_relative-contents :
    (t : QpackDynamicTable) (relative : ℕ)
    → IsWf t
    → (relative < t.len
        → (f : Field) × (get_encoder_relative t relative ≡ some (ok f))
          × (get_elem? (contents t) relative ≡ some f))
      × (t.insert_count ≤ relative
          → get_encoder_relative t relative
            ≡ some (err (encoder_relative_index_underflow t.insert_count relative)))
get_encoder_relative-contents t relative w = (found, refused)
  where
    found :
        relative < t.len
        → (f : Field) × (get_encoder_relative t relative ≡ some (ok f))
          × (get_elem? (contents t) relative ≡ some f)
    found h =
        let (f, e, at) = read_slot-contents t relative w h in
        let slot : t.insert_count - (t.insert_count - relative - 1) - 1 ≡ relative =
          omega (arith, w.counted) in
        (
          f,
          encoder_relative-at t relative f (omega (arith, w.counted)) (
              get_absolute-active t (t.insert_count - relative - 1) f w (omega (arith, w.counted))
                (omega arith) (rw slot e)),
          at,
        )

    refused :
        t.insert_count ≤ relative
        → get_encoder_relative t relative
          ≡ some (err (encoder_relative_index_underflow t.insert_count relative))
    refused h = encoder_relative-none t relative h
