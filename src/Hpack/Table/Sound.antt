-- ===== src/Hpack/Table/Sound.antt =====
-- Each operation of src/http2/hpack/table.rs on a well-formed table.
use net_wire_rs.Common.{ℕ, ◌+◌, ◌-◌, ◌≤◌, ◌<◌, ltb, length, take, arith}
use net_wire_rs.Common.{List, [], ◌∷◌, some, ◌≡◌, refl, subst}
use net_wire_rs.Common.{le→ltb, lt→ltb, ltb→le, Bool-cases, inl, inr}
use net_wire_rs.Common.Result.{ok, word, checked_sub}
use net_wire_rs.Packed.{storage_capacity}
use net_wire_rs.Packed.Evict.{keep, sizes}
use net_wire_rs.Packed.Layout.{Field, cut, keep_fields}
use net_wire_rs.Packed.Store.{IsPacked, fields, empty-IsPacked, evict_loop-kept, shrink}
use net_wire_rs.Packed.Push.{push, after_storage, after_entries}
use net_wire_rs.Hpack.Table.{
  HpackDynamicTable, HpackDynamicTableEntry, new, clear, set_maximum_size, entry_size, insert,
  insert_prevalidated, HpackDynamicTableInsertResult, inserted, not_inserted_oversized,
}

-- The fields that a table holds, newest first.
abbrev pub contents : HpackDynamicTable → List Field
contents t = fields t.storage t.entries t.count

-- A table as its constructor and its operations leave it. A Rust slice is shorter than 2 ^ 64.
pub record IsWf (t : HpackDynamicTable) : Type 0 where
  pub packed : IsPacked t.storage t.entries t.count t.size t.maximum_size
  pub capped : t.maximum_size ≤ t.capacity
  pub backed : t.capacity ≡ storage_capacity (length t.storage) (length t.entries)
  pub addressable : length t.storage < word

abbrev fresh : List ℕ → List HpackDynamicTableEntry → ℕ → HpackDynamicTable
fresh storage entries maximum_size = record {
  storage = storage;
  entries = entries;
  count = 0;
  size = 0;
  maximum_size = maximum_size;
  capacity = storage_capacity (length storage) (length entries);
}

pub new-IsWf :
    (storage : List ℕ) (entries : List HpackDynamicTableEntry) (maximum_size : ℕ)
    (t : HpackDynamicTable)
    → length storage < word
    → new storage entries maximum_size ≡ ok t
    → IsWf t × (contents t ≡ [])
unfolding new
new-IsWf storage entries maximum_size t short e =
    elim (Bool-cases (ltb (storage_capacity (length storage) (length entries)) maximum_size)) [
      | inl over ↦ ground arith
      | inr fits ↦
          let capacity = storage_capacity (length storage) (length entries) in
          let le = ltb→le capacity maximum_size fits in
          let same : fresh storage entries maximum_size ≡ t = cc fits in
          subst (λ u. IsWf u × (contents u ≡ [])) same
            (
              record {
                packed = empty-IsPacked storage entries maximum_size le;
                capped = le;
                backed = refl;
                addressable = short;
              },
              unfold cut in refl,
            )
    ]

-- On a well-formed HPACK table, a new maximum within the capacity is accepted without a panic,
-- keeps the longest run of newest fields that it holds, and keeps the table well formed with its
-- capacity.
pub set_maximum_size_lem :
    (t : HpackDynamicTable) (m : ℕ)
    → IsWf t
    → m ≤ t.capacity
    → (t' : HpackDynamicTable) × (set_maximum_size t m ≡ some (t', ok tt))
      × IsWf t'
      × (contents t' ≡ keep_fields m (contents t))
      × (t'.maximum_size ≡ m)
      × (t'.capacity ≡ t.capacity)
unfolding set_maximum_size
set_maximum_size_lem t m w h =
    let kept = keep m (take t.count t.entries) in
    let within : m ≤ storage_capacity (length t.storage) (length t.entries) = rw (← w.backed) h in
    let (p, view) = shrink t.storage t.entries t.count t.size t.maximum_size w.packed m within in
    let run = evict_loop-kept t.storage t.entries t.count t.size t.maximum_size w.packed m in
    (
      record t { count = length kept; size = sizes kept; maximum_size = m },
      rw (le→ltb t.capacity m h, run),
      record { packed = p; capped = h; backed = w.backed; addressable = w.addressable },
      view,
      refl,
      refl,
    )

pub clear-IsWf : (t : HpackDynamicTable) → IsWf t → IsWf (clear t) × (contents (clear t) ≡ [])
unfolding clear
clear-IsWf t w = (
  record {
    packed = empty-IsPacked t.storage t.entries t.maximum_size w.packed.provisioned;
    capped = w.capped;
    backed = w.backed;
    addressable = w.addressable;
  },
  unfold cut in refl,
)

pub entry_size-eq_ok :
    (name value : List ℕ)
    → length name + length value + 32 < word
    → entry_size name value ≡ ok (length name + length value + 32)
unfolding entry_size
entry_size-eq_ok name value h = ground arith

insert-prevalidated :
    (t : HpackDynamicTable) (name value : List ℕ) (t' : HpackDynamicTable)
    (done : HpackDynamicTableInsertResult)
    → length name + length value + 32 < word
    → insert_prevalidated t name value (length name + length value + 32) ≡ some (t', done)
    → insert t name value ≡ some (t', ok done)
unfolding insert
insert-prevalidated t name value t' done small e = rw (entry_size-eq_ok name value small, e, insert)

-- The table after an insertion that fits.
abbrev after : HpackDynamicTable → List ℕ → List ℕ → HpackDynamicTable
after t name value =
    let size = length name + length value + 32 in
    let kept = keep (t.maximum_size - size) (take t.count t.entries) in
    record t {
      storage = after_storage t.storage kept name value;
      entries = after_entries t.entries kept name value;
      count = length kept + 1;
      size = sizes kept + size;
    }

-- An HPACK insertion of an entry within the maximum panics nowhere, puts the field in front of the
-- longest run of newest fields that leaves it room, and keeps the table well formed with its
-- maximum and capacity.
pub insert_fits :
    (t : HpackDynamicTable) (name value : List ℕ)
    → IsWf t
    → length name + length value + 32 < word
    → length name + length value + 32 ≤ t.maximum_size
    → (t' : HpackDynamicTable) × (insert t name value ≡ some (t', ok inserted))
      × IsWf t'
      × (contents t'
          ≡ (name, value)
            ∷ keep_fields (t.maximum_size - (length name + length value + 32)) (contents t))
      × (t'.maximum_size ≡ t.maximum_size)
      × (t'.capacity ≡ t.capacity)
insert_fits t name value w small fits =
    let size = length name + length value + 32 in
    let target = t.maximum_size - size in
    let run = evict_loop-kept t.storage t.entries t.count t.size t.maximum_size w.packed target in
    let (pushed, p, view, len_s, len_e) =
      push t.storage t.entries t.count t.size t.maximum_size w.packed name value fits in
    let sub : checked_sub size 32 ≡ some (length name + length value) = ground arith in
    let fitting : insert_prevalidated t name value size ≡ some (after t name value, inserted) =
      unfold insert_prevalidated in rw (le→ltb t.maximum_size size fits, sub, run, pushed) in
    (
      after t name value,
      insert-prevalidated t name value (after t name value) inserted small fitting,
      record {
        packed = p;
        capped = w.capped;
        backed = rw (len_s, len_e) w.backed;
        addressable = rw len_s w.addressable;
      },
      view,
      refl,
      refl,
    )

-- A field larger than the maximum empties the table.
pub insert_oversized :
    (t : HpackDynamicTable) (name value : List ℕ)
    → length name + length value + 32 < word
    → t.maximum_size < length name + length value + 32
    → insert t name value ≡ some (clear t, ok not_inserted_oversized)
insert_oversized t name value small over =
    insert-prevalidated t name value (clear t) not_inserted_oversized small (
      unfold insert_prevalidated in
      rw (lt→ltb t.maximum_size (length name + length value + 32) over))
