-- ===== src/Hpack/Table.antt =====
-- src/http2/hpack/table.rs: the dynamic table. Its slots and stores are those of Packed.antt. A
-- call that changes the table returns it beside its result; `none` is a panic of the source.
pub mod Sound
pub mod Lookup
pub mod Spec
use net_wire_rs.Common.{
  ℕ, zero, suc, ◌+◌, ◌-◌, ◌≤◌, ltb, if◌then◌else◌, length, take, drop, get_elem?,
}
use net_wire_rs.Common.{List, [], ◌∷◌, Option, none, some, Bool}
use net_wire_rs.Common.Result.{Result, ok, err, word, checked_add, checked_sub}
use net_wire_rs.Common.Result.{◌>>=◌ as and_then}
use net_wire_rs.Packed.{Slot, ◌>>=◌, storage_capacity, evict_loop, push_front}
use net_wire_rs.Packed.Layout.{Field}

abbrev pub HpackDynamicTableEntry : Type 0
HpackDynamicTableEntry = Slot

pub data HpackDynamicTableError : Type 0 where
  maximum_size_exceeds_capacity : ℕ → ℕ → HpackDynamicTableError
  entry_size_overflow : HpackDynamicTableError

pub data HpackDynamicTableInsertResult : Type 0 where
  inserted not_inserted_oversized : HpackDynamicTableInsertResult

pub record HpackDynamicTable : Type 0 where
  pub storage : List ℕ
  pub entries : List HpackDynamicTableEntry
  pub count : ℕ
  pub size : ℕ
  pub maximum_size : ℕ
  pub capacity : ℕ

-- HpackDynamicTable::new
unfoldable pub new :
    List ℕ → List HpackDynamicTableEntry → ℕ → Result HpackDynamicTableError HpackDynamicTable
new storage entries maximum_size =
    let capacity = storage_capacity (length storage) (length entries) in
    if ltb capacity maximum_size
    then err (maximum_size_exceeds_capacity maximum_size capacity)
    else ok (record {
      storage = storage;
      entries = entries;
      count = 0;
      size = 0;
      maximum_size = maximum_size;
      capacity = capacity;
    })

-- `storage.get(from..to)`
unfoldable pub get_range {ℓ} : {A : Type ℓ} → List A → ℕ → ℕ → Option (List A)
get_range xs from to =
    if ltb to from
    then none
    else if ltb (length xs) to
    then none
    else some (take (to - from) (drop from xs))

unfoldable pub get_slot : HpackDynamicTable → ℕ → Option Field
unfolding get_range
get_slot t slot =
    let found = (do
      entry ← get_elem? t.entries slot
      name_end ← checked_add entry.offset entry.name_len
      value_end ← checked_add name_end entry.value_len
      name ← get_range t.storage entry.offset name_end
      value ← get_range t.storage name_end value_end
      some (name, value)) in
    if ltb slot t.count then found else none

-- HpackDynamicTable::get; the index counts from 1, the newest.
unfoldable pub get : HpackDynamicTable → ℕ → Option Field
unfolding get_slot
get t index = do slot ← checked_sub index 1; get_slot t slot

unfoldable pub clear : HpackDynamicTable → HpackDynamicTable
clear t = record t { count = 0; size = 0 }

unfoldable pub set_maximum_size_prevalidated : HpackDynamicTable → ℕ → Option HpackDynamicTable
unfolding evict_loop
set_maximum_size_prevalidated t maximum_size = do
  (count, size) ← evict_loop t.entries t.count t.size maximum_size
  some (record t { count = count; size = size; maximum_size = maximum_size })

unfoldable pub set_maximum_size :
    HpackDynamicTable → ℕ → Option (HpackDynamicTable × Result HpackDynamicTableError (Unit {0}))
unfolding set_maximum_size_prevalidated
set_maximum_size t maximum_size =
    let changed = (do t' ← set_maximum_size_prevalidated t maximum_size; some (t', ok tt)) in
    if ltb t.capacity maximum_size
    then some (t, err (maximum_size_exceeds_capacity maximum_size t.capacity))
    else changed

unfoldable pub entry_size : List ℕ → List ℕ → Result HpackDynamicTableError ℕ
entry_size name value =
    elim (checked_add (length name) (length value) >>= λ size. checked_add size 32) [
      | none ↦ err entry_size_overflow
      | some size ↦ ok size
    ]

-- The insertion of an entry that is not oversized.
unfoldable pub insert_fitting : HpackDynamicTable → List ℕ → List ℕ → ℕ → Option HpackDynamicTable
unfolding evict_loop push_front
insert_fitting t name value size = do
  byte_len ← checked_sub size 32
  (retained_count, retained_size) ← evict_loop t.entries t.count t.size (t.maximum_size - size)
  (storage, entries) ← push_front t.storage t.entries retained_count byte_len name value
  some (record t {
    storage = storage;
    entries = entries;
    count = retained_count + 1;
    size = retained_size + size;
  })

unfoldable pub insert_prevalidated :
    HpackDynamicTable
    → List ℕ
    → List ℕ
    → ℕ
    → Option (HpackDynamicTable × HpackDynamicTableInsertResult)
unfolding clear insert_fitting
insert_prevalidated t name value size =
    let fitting = (do t' ← insert_fitting t name value size; some (t', inserted)) in
    if ltb t.maximum_size size then some (clear t, not_inserted_oversized) else fitting

-- HpackDynamicTable::insert
unfoldable pub insert :
    HpackDynamicTable
    → List ℕ
    → List ℕ
    → Option (HpackDynamicTable × Result HpackDynamicTableError HpackDynamicTableInsertResult)
insert t name value = elim (entry_size name value) [
  | err e ↦ some (t, err e)
  | ok size ↦ (do (t', done) ← insert_prevalidated t name value size; some (t', ok done))
]
