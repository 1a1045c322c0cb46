-- ===== src/Qpack/Table/Insertion.antt =====
-- `insert` of src/qpack/table/dynamic.rs on a well-formed table.
use net_wire_rs.Common.{ℕ, ◌+◌, ◌-◌, ◌≤◌, ◌<◌, ltb, length, arith}
use net_wire_rs.Common.{List, ◌∷◌, Option, some, Bool, ◌≡◌, refl, inl, inr}
use net_wire_rs.Common.{ltb→lt, ltb→le, Bool-cases}
use net_wire_rs.Common.Result.{Result, ok, err, word}
use net_wire_rs.Packed.Evict.{sizes}
use net_wire_rs.Packed.Layout.{keep_fields}
use net_wire_rs.Packed.Store.{length-kept-le}
use net_wire_rs.Packed.Push.{push, after_storage, after_entries}
use net_wire_rs.Qpack.Table.{
  QpackDynamicTable, QpackDynamicTableError, entry_size, eviction_blocked,
  entry_larger_than_capacity, insert_count_overflow, commit_insert, insert_sized, insert,
  write_entry,
}
use net_wire_rs.Qpack.Table.Sound.{
  contents, IsWf, AllEvictable, retained, IsRefused, plan_eviction_cases,
}

pub entry_size-eq_ok :
    (name value : List ℕ)
    → length name + length value + 32 < word
    → entry_size name value ≡ ok (length name + length value + 32)
unfolding entry_size
entry_size-eq_ok name value h = ground arith

-- How `insert` of an entry of `size` bytes ends.
pub data InsertOutcome (t : QpackDynamicTable) (name value : List ℕ) (evictable : ℕ → Bool)
    (size : ℕ) : Option (QpackDynamicTable × Result QpackDynamicTableError ℕ) → Type 0 where
  too_large :
      {e : QpackDynamicTableError}
      → t.capacity < size
      → e ≡ entry_larger_than_capacity size t.capacity
      → InsertOutcome t name value evictable size (some (t, err e))
  refused :
      (i : ℕ) {e : QpackDynamicTableError}
      → IsRefused t (t.capacity - size) evictable i
      → e ≡ eviction_blocked (t.insert_count - (length (retained t (t.capacity - size)) + i) - 1)
      → InsertOutcome t name value evictable size (some (t, err e))
  exhausted :
      {e : QpackDynamicTableError}
      → t.insert_count + 1 ≡ word
      → e ≡ insert_count_overflow
      → InsertOutcome t name value evictable size (some (t, err e))
  stored :
      (t' : QpackDynamicTable) {absolute : ℕ}
      → absolute ≡ t.insert_count
      → IsWf t'
      → contents t' ≡ (name, value) ∷ keep_fields (t.capacity - size) (contents t)
      → t'.capacity ≡ t.capacity
      → t'.insert_count ≡ t.insert_count + 1
      → t'.len ≡ length (retained t (t.capacity - size)) + 1
      → AllEvictable evictable t.insert_count
          (length (retained t (t.capacity - size)))
          (t.len - length (retained t (t.capacity - size)))
      → InsertOutcome t name value evictable size (some (t', ok absolute))

-- The table after an insertion.
abbrev after : QpackDynamicTable → List ℕ → List ℕ → QpackDynamicTable
after t name value =
    let size = length name + length value + 32 in
    let kept = retained t (t.capacity - size) in
    record t {
      storage = after_storage t.storage kept name value;
      entries = after_entries t.entries kept name value;
      len = length kept + 1;
      size = sizes kept + size;
      insert_count = t.insert_count + 1;
    }

module _ (t : QpackDynamicTable) (name value : List ℕ) (w : IsWf t)
    (fits : length name + length value + 32 ≤ t.capacity) where
  after-IsWf : t.insert_count + 1 < word → IsWf (after t name value)
  after-IsWf u64 =
      let target = t.capacity - (length name + length value + 32) in
      let (pushed, p, view, len_s, len_e) =
        push t.storage t.entries t.len t.size t.capacity w.packed name value fits in
      let fewer = length-kept-le t.storage t.entries t.len t.size t.capacity w.packed target in
      record {
        packed = p;
        backed = rw (len_s, len_e) w.backed;
        counted = omega (arith, fewer, w.counted);
        u64 = u64;
      }

  write_entry-after :
      let size = length name + length value + 32 in
      let kept = retained t (t.capacity - size) in
      write_entry t name value size (length kept) (sizes kept) (t.insert_count + 1)
      ≡ some (after t name value, ok t.insert_count)
  unfolding write_entry
  write_entry-after =
      rw ((push t.storage t.entries t.len t.size t.capacity w.packed name value fits).0)

  commit_insert-InsertOutcome :
      (evictable : ℕ → Bool)
      → let size = length name + length value + 32 in
        let kept = retained t (t.capacity - size) in
        AllEvictable evictable t.insert_count (length kept) (t.len - length kept)
        → InsertOutcome t name value evictable size
            (commit_insert t name value size (ok (length kept, sizes kept)))
  unfolding commit_insert
  commit_insert-InsertOutcome evictable all =
      let view = (push t.storage t.entries t.len t.size t.capacity w.packed name value fits).2 in
      elim (Bool-cases (ltb (t.insert_count + 1) word)) [
        | inl room ↦
            rw (room, write_entry-after, commit_insert)
              (stored (after t name value) refl (after-IsWf (ltb→lt (t.insert_count + 1) word room))
                view refl refl refl all)
        | inr over ↦
            let full : t.insert_count + 1 ≡ word =
              omega (arith, ltb→le (t.insert_count + 1) word over, w.u64) in
            rw (over, commit_insert) (exhausted full refl)
      ]

-- On a well-formed QPACK table and an entry whose size is a usize, `insert` panics nowhere and
-- ends in one of four ways: the entry exceeds the capacity, an eviction needed is refused by the
-- caller, or the insert count is exhausted, each with its error and the table unchanged; or the
-- entry is stored in front of the longest run of newest fields that leaves it room, with the old
-- insert count as its index and every evicted index evictable, and the table is well formed.
pub insert-InsertOutcome :
    (t : QpackDynamicTable) (name value : List ℕ) (evictable : ℕ → Bool)
    → IsWf t
    → length name + length value + 32 < word
    → InsertOutcome t name value evictable
        (length name + length value + 32)
        (insert t name value evictable)
unfolding insert
insert-InsertOutcome t name value evictable w small =
    let size = length name + length value + 32 in
    rw (entry_size-eq_ok name value small, insert)
      (elim (Bool-cases (ltb t.capacity size)) [
        | inl over ↦ unfold insert_sized in rw over (too_large (ltb→lt t.capacity size over) refl)
        | inr fits ↦ elim (plan_eviction_cases t (t.capacity - size) evictable w) [
          | inr (i, no_way, e) ↦
              unfold insert_sized in rw (fits, e) (unfold commit_insert in refused i no_way refl)
          | inl (e, all) ↦
              unfold insert_sized in
              rw (fits, e)
                (commit_insert-InsertOutcome t name value w (ltb→le t.capacity size fits) evictable
                  all)
        ]
      ])
