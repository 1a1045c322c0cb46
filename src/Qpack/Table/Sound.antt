-- ===== src/Qpack/Table/Sound.antt =====
-- Each operation of src/qpack/table/dynamic.rs on a well-formed table.
use net_wire_rs.Common.{ℕ, zero, suc, ◌+◌, ◌-◌, ◌≤◌, ◌<◌, ltb, length, take, arith}
use net_wire_rs.Common.{List, [], Option, some, Bool, true, false, ◌≡◌, refl, ◌⊎◌, inl, inr}
use net_wire_rs.Common.{ltb→lt, ltb→le, Bool-cases}
use net_wire_rs.Common.Result.{Result, ok, err, word, checked_sub}
use native.Mathlib.Decide.{dec_lt}
use net_wire_rs.Packed.{Slot, storage_capacity}
use net_wire_rs.Packed.Evict.{keep, sizes}
use net_wire_rs.Packed.Layout.{Field, cut, keep_fields}
use net_wire_rs.Packed.Store.{
  IsPacked, fields, empty-IsPacked, evict_loop-kept, length-kept-le, shrink,
}
use net_wire_rs.Qpack.Table.{
  QpackDynamicTable, QpackDynamicTableEntry, QpackDynamicTableError, new, confirm_evictions,
  plan_eviction, eviction_blocked, capacity_exceeds_storage, commit_capacity, set_capacity,
}

-- The fields that a table holds, newest first.
abbrev pub contents : QpackDynamicTable → List Field
contents t = fields t.storage t.entries t.len

-- A table as its constructor and its operations leave it.
pub record IsWf (t : QpackDynamicTable) : Type 0 where
  pub packed : IsPacked t.storage t.entries t.len t.size t.capacity
  pub backed : t.storage_capacity ≡ storage_capacity (length t.storage) (length t.entries)
  pub counted : t.len ≤ t.insert_count
  pub u64 : t.insert_count < word

pub new-IsWf :
    (storage : List ℕ) (entries : List QpackDynamicTableEntry)
    → IsWf (new storage entries) × (contents (new storage entries) ≡ [])
unfolding new
new-IsWf storage entries = (
  record {
    packed = empty-IsPacked storage entries 0 (omega arith);
    backed = refl;
    counted = omega arith;
    u64 = omega arith;
  },
  unfold cut in refl,
)

-- The absolute indexes of the `left` entries behind the `retained` newest.
abbrev pub AllEvictable : (ℕ → Bool) → ℕ → ℕ → ℕ → Type 0
AllEvictable evictable insert_count retained left =
    (i : ℕ) → i < left → evictable (insert_count - (retained + i) - 1) ≡ true

AllEvictable-suc :
    (evictable : ℕ → Bool) (insert_count retained left : ℕ)
    → evictable (insert_count - (retained + left) - 1) ≡ true
    → AllEvictable evictable insert_count retained left
    → AllEvictable evictable insert_count retained (suc left)
AllEvictable-suc evictable ic retained left allowed all i lt = elim (dec_lt i left) [
  | yes inside ↦ all i inside
  | no last ↦ let same : i ≡ left = omega arith in rw same allowed
]

-- Where no more entries are held than were inserted, `confirm_evictions` succeeds if every entry
-- to be evicted is evictable, and otherwise reports the index of one of them that is not.
pub confirm_evictions_cases :
    (evictable : ℕ → Bool) (insert_count retained left : ℕ)
    → retained + left ≤ insert_count
    → ((confirm_evictions evictable insert_count retained left ≡ some (ok tt))
        × AllEvictable evictable insert_count retained left)
      ⊎ ((i : ℕ) × (i < left)
          × (confirm_evictions evictable insert_count retained left
              ≡ some (err (eviction_blocked (insert_count - (retained + i) - 1))))
          × (evictable (insert_count - (retained + i) - 1) ≡ false))
unfolding confirm_evictions
confirm_evictions_cases evictable ic retained zero h = inl (refl, λ i lt. absurd (omega arith))
confirm_evictions_cases evictable ic retained (suc left) h =
    let newer : checked_sub ic (retained + left) ≡ some (ic - (retained + left)) = ground arith in
    let index : checked_sub (ic - (retained + left)) 1 ≡ some (ic - (retained + left) - 1) =
      ground arith in
    elim (Bool-cases (evictable (ic - (retained + left) - 1))) [
      | inr refused ↦ inr (left, omega arith, rw (newer, index, refused), refused)
      | inl allowed ↦ elim (confirm_evictions_cases evictable ic retained left (omega arith)) [
        | inl (e, all) ↦
            inl (
              rw (newer, index, allowed) e,
              AllEvictable-suc evictable ic retained left allowed all,
            )
        | inr (i, lt, e, refused) ↦ inr (i, omega arith, rw (newer, index, allowed) e, refused)
      ]
    ]

-- The newest entries that a target leaves room for.
abbrev pub retained : QpackDynamicTable → ℕ → List Slot
retained t target = keep target (take t.len t.entries)

-- Refused: `evictable` is false of the index of an entry that had to go.
abbrev pub IsRefused : QpackDynamicTable → ℕ → (ℕ → Bool) → ℕ → Type 0
IsRefused t target evictable i =
    (i < t.len - length (retained t target))
    × (evictable (t.insert_count - (length (retained t target) + i) - 1) ≡ false)

pub plan_eviction_cases :
    (t : QpackDynamicTable) (target : ℕ) (evictable : ℕ → Bool)
    → IsWf t
    → let kept = retained t target in
      ((plan_eviction t target evictable ≡ some (ok (length kept, sizes kept)))
        × AllEvictable evictable t.insert_count (length kept) (t.len - length kept))
      ⊎ ((i : ℕ) × IsRefused t target evictable i
          × (plan_eviction t target evictable
              ≡ some (err (eviction_blocked (t.insert_count - (length kept + i) - 1)))))
unfolding plan_eviction
plan_eviction_cases t target evictable w =
    let kept = retained t target in
    let p = w.packed in
    let run = evict_loop-kept t.storage t.entries t.len t.size t.capacity p target in
    let fewer = length-kept-le t.storage t.entries t.len t.size t.capacity p target in
    elim (confirm_evictions_cases evictable t.insert_count (length kept) (t.len - length kept)
      (omega (arith, fewer, w.counted))) [
        | inl (e, all) ↦ inl (rw (run, e), all)
        | inr (i, lt, e, refused) ↦ inr (i, (lt, refused), rw (run, e))
      ]

-- How `set_capacity` ends.
pub data CapacityOutcome (t : QpackDynamicTable) (capacity : ℕ) (evictable : ℕ → Bool)
    : Option (QpackDynamicTable × Result QpackDynamicTableError (Unit {0})) → Type 0 where
  too_much :
      {e : QpackDynamicTableError}
      → t.storage_capacity < capacity
      → e ≡ capacity_exceeds_storage capacity t.storage_capacity
      → CapacityOutcome t capacity evictable (some (t, err e))
  refused :
      (i : ℕ) {e : QpackDynamicTableError}
      → IsRefused t capacity evictable i
      → e ≡ eviction_blocked (t.insert_count - (length (retained t capacity) + i) - 1)
      → CapacityOutcome t capacity evictable (some (t, err e))
  changed :
      (t' : QpackDynamicTable)
      → IsWf t'
      → contents t' ≡ keep_fields capacity (contents t)
      → t'.capacity ≡ capacity
      → t'.insert_count ≡ t.insert_count
      → t'.len ≡ length (retained t capacity)
      → AllEvictable evictable t.insert_count t'.len (t.len - t'.len)
      → CapacityOutcome t capacity evictable (some (t', ok tt))

-- On a well-formed QPACK table, `set_capacity` panics nowhere: it refuses a capacity above that of
-- the storage, or an eviction that the caller forbids, and then changes nothing; otherwise it
-- keeps the longest run of newest fields that the capacity holds, every evicted index was
-- evictable, and the table is well formed.
pub set_capacity-CapacityOutcome :
    (t : QpackDynamicTable) (capacity : ℕ) (evictable : ℕ → Bool)
    → IsWf t
    → CapacityOutcome t capacity evictable (set_capacity t capacity evictable)
unfolding set_capacity
set_capacity-CapacityOutcome t capacity evictable w =
    elim (Bool-cases (ltb t.storage_capacity capacity)) [
      | inl over ↦ rw over (too_much (ltb→lt t.storage_capacity capacity over) refl)
      | inr fits ↦
          let kept = retained t capacity in
          let cap : capacity ≤ storage_capacity (length t.storage) (length t.entries) =
            rw (← w.backed) (ltb→le t.storage_capacity capacity fits) in
          let (p, view) =
            shrink t.storage t.entries t.len t.size t.capacity w.packed capacity cap in
          let fewer =
            length-kept-le t.storage t.entries t.len t.size t.capacity w.packed capacity in
          elim (plan_eviction_cases t capacity evictable w) [
            | inr (i, no_way, e) ↦ rw (fits, e) (unfold commit_capacity in refused i no_way refl)
            | inl (e, all) ↦
                rw (fits, e)
                  (unfold commit_capacity in
                    changed (record t { len = length kept; size = sizes kept; capacity = capacity })
                      (record {
                        packed = p;
                        backed = w.backed;
                        counted = omega (arith, fewer, w.counted);
                        u64 = w.u64;
                      })
                      view refl refl refl all)
          ]
    ]
