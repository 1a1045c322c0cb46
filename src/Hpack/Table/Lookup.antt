-- ===== src/Hpack/Table/Lookup.antt =====
-- `get` of src/http2/hpack/table.rs on a well-formed table.
use net_wire_rs.Common.{ℕ, suc, ◌+◌, ◌-◌, ◌≤◌, ◌<◌, ltb, length, take, drop, get_elem?, arith}
use net_wire_rs.Common.{List, none, some, length-take, get_elem?-none, ◌≡◌, refl, sym}
use net_wire_rs.Common.{le→ltb, lt→ltb, ltb→lt, ltb→le, Bool-cases, inl, inr}
use net_wire_rs.Common.Result.{word, checked_sub, checked_add}
use net_wire_rs.Packed.Evict.{take-suc}
use net_wire_rs.Packed.Layout.{length-cut}
use net_wire_rs.Packed.Push.{field_at}
use net_wire_rs.Hpack.Table.{HpackDynamicTable, get, get_slot, get_range}
use net_wire_rs.Hpack.Table.Sound.{contents, IsWf}

get_range-at :
    (xs : List ℕ) (from n : ℕ)
    → from + n ≤ length xs
    → get_range xs from (from + n) ≡ some (take n (drop from xs))
unfolding get_range
get_range-at xs from n h =
    let len : from + n - from ≡ n = omega arith in
    rw (le→ltb (from + n) from (omega arith), le→ltb (length xs) (from + n) h, len)

checked_add-at : (a b n : ℕ) → a + b ≤ n → n < word → checked_add a b ≡ some (a + b)
checked_add-at a b n h k = ground arith

get_slot-active :
    (t : HpackDynamicTable) (i : ℕ) → IsWf t → i < t.count → get_slot t i ≡ get_elem? (contents t) i
unfolding get_slot
get_slot-active t i w h =
    let (e, at, front) = take-suc i t.entries (omega (arith, w.packed.within)) in
    let (found, bound) =
      field_at t.storage t.entries t.count t.size t.maximum_size i e w.packed h at in
    let name_end = e.offset + e.name_len in
    rw
      (
        lt→ltb i t.count h,
        at,
        checked_add-at e.offset e.name_len (length t.storage) (omega arith) w.addressable,
        checked_add-at name_end e.value_len (length t.storage) bound w.addressable,
        get_range-at t.storage e.offset e.name_len (omega arith),
        get_range-at t.storage name_end e.value_len bound,
      )
      (sym found)

get_slot-beyond :
    (t : HpackDynamicTable) (i : ℕ) → IsWf t → t.count ≤ i → get_slot t i ≡ get_elem? (contents t) i
unfolding get_slot
get_slot-beyond t i w h =
    let active = take t.count t.entries in
    rw (le→ltb i t.count h) (
      sym (
        get_elem?-none i (contents t)
          (omega (arith, length-cut t.storage active, length-take t.count t.entries))))

-- On a well-formed HPACK table, `get` of a one-based index is the field at that place from the
-- newest, none behind the oldest, and none at index 0.
pub get-contents :
    (t : HpackDynamicTable) (i : ℕ)
    → IsWf t
    → (get t (suc i) ≡ get_elem? (contents t) i) × (get t 0 ≡ none)
get-contents t i w =
    let slot : checked_sub (suc i) 1 ≡ some i = ground arith in
    (
      unfold get in
          rw slot (elim (Bool-cases (ltb i t.count)) [
            | inl active ↦ get_slot-active t i w (ltb→lt i t.count active)
            | inr beyond ↦ get_slot-beyond t i w (ltb→le i t.count beyond)
          ]),
      unfold get in refl,
    )
