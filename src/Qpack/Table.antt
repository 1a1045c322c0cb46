-- ===== src/Qpack/Table.antt =====
-- src/qpack/table/dynamic.rs: the dynamic table. Its slots and stores are those of Packed.antt. A
-- call that changes the table returns it beside its result; `none` is a panic of the source. The
-- closure `evictable` is asked for each absolute index at most once in a call, so a function from
-- indexes to answers stands for it.
pub mod Sound
pub mod Insertion
pub mod Index
pub mod Evicting
use net_wire_rs.Common.{
  ℕ, zero, suc, ◌+◌, ◌-◌, ◌≤◌, ltb, leb, ◌==◌, if◌then◌else◌, length, take, drop, get_elem?,
}
use net_wire_rs.Common.{List, [], ◌∷◌, Option, none, some, Bool}
use net_wire_rs.Common.Result.{Result, ok, err, checked_add, checked_sub}
use net_wire_rs.Packed.{Slot, ◌>>=◌, storage_capacity, evict_loop, push_front}
use net_wire_rs.Packed.Layout.{Field}

abbrev pub QpackDynamicTableEntry : Type 0
QpackDynamicTableEntry = Slot

pub data QpackDynamicTableError : Type 0 where
  capacity_exceeds_storage : ℕ → ℕ → QpackDynamicTableError
  entry_size_overflow : QpackDynamicTableError
  entry_larger_than_capacity : ℕ → ℕ → QpackDynamicTableError
  insert_count_overflow : QpackDynamicTableError
  eviction_blocked : ℕ → QpackDynamicTableError
  encoder_relative_index_underflow : ℕ → ℕ → QpackDynamicTableError
  field_relative_index_underflow : ℕ → ℕ → QpackDynamicTableError
  post_base_index_overflow : ℕ → ℕ → QpackDynamicTableError
  future_absolute_index : ℕ → ℕ → QpackDynamicTableError
  evicted_absolute_index : ℕ → ℕ → QpackDynamicTableError
  reference_at_or_after_required_insert_count : ℕ → ℕ → QpackDynamicTableError

pub record QpackDynamicTable : Type 0 where
  pub storage : List ℕ
  pub entries : List QpackDynamicTableEntry
  pub len : ℕ
  pub size : ℕ
  pub capacity : ℕ
  pub storage_capacity : ℕ
  pub insert_count : ℕ

unfoldable pub new : List ℕ → List QpackDynamicTableEntry → QpackDynamicTable
new storage entries = record {
  storage = storage;
  entries = entries;
  len = 0;
  size = 0;
  capacity = 0;
  storage_capacity = storage_capacity (length storage) (length entries);
  insert_count = 0;
}

unfoldable pub oldest_active_absolute : QpackDynamicTable → Option ℕ
oldest_active_absolute t = if t.len == 0 then none else checked_sub t.insert_count t.len

unfoldable pub entry_size : List ℕ → List ℕ → Result QpackDynamicTableError ℕ
entry_size name value =
    elim (checked_add (length name) (length value) >>= λ size. checked_add size 32) [
      | none ↦ err entry_size_overflow
      | some size ↦ ok size
    ]

-- The slots `retained + left - 1`, down to `retained`: the oldest entry is asked for first.
unfoldable pub confirm_evictions :
    (ℕ → Bool) → ℕ → ℕ → ℕ → Option (Result QpackDynamicTableError (Unit {0}))
confirm_evictions evictable insert_count retained zero = some (ok tt)
confirm_evictions evictable insert_count retained (suc left) = do
  newer ← checked_sub insert_count (retained + left)
  absolute_index ← checked_sub newer 1
  let rest = confirm_evictions evictable insert_count retained left
  if evictable absolute_index then rest else some (err (eviction_blocked absolute_index))

-- What both callers do first: find what is retained and ask for every other entry. On a refusal
-- the result is the error.
unfoldable pub plan_eviction :
    QpackDynamicTable → ℕ → (ℕ → Bool) → Option (Result QpackDynamicTableError (ℕ × ℕ))
unfolding evict_loop confirm_evictions
plan_eviction t target evictable = do
  (retained_len, retained_size) ← evict_loop t.entries t.len t.size target
  answer ← confirm_evictions evictable t.insert_count retained_len (t.len - retained_len)
  elim answer [ ok _ ↦ some (ok (retained_len, retained_size)) | err e ↦ some (err e) ]

unfoldable pub commit_capacity :
    QpackDynamicTable
    → ℕ
    → Result QpackDynamicTableError (ℕ × ℕ)
    → Option (QpackDynamicTable × Result QpackDynamicTableError (Unit {0}))
commit_capacity t capacity (err e) = some (t, err e)
commit_capacity t capacity (ok (retained_len, retained_size)) =
    some (record t { len = retained_len; size = retained_size; capacity = capacity }, ok tt)

unfoldable pub set_capacity :
    QpackDynamicTable
    → ℕ
    → (ℕ → Bool)
    → Option (QpackDynamicTable × Result QpackDynamicTableError (Unit {0}))
set_capacity t capacity evictable =
    let changed = plan_eviction t capacity evictable >>= commit_capacity t capacity in
    if ltb t.storage_capacity capacity
    then some (t, err (capacity_exceeds_storage capacity t.storage_capacity))
    else changed

-- The part of `insert` behind its checks.
unfoldable pub write_entry :
    QpackDynamicTable
    → List ℕ
    → List ℕ
    → ℕ
    → ℕ
    → ℕ
    → ℕ
    → Option (QpackDynamicTable × Result QpackDynamicTableError ℕ)
unfolding push_front
write_entry t name value size retained_len retained_size next_insert_count = do
  (storage, entries) ←
      push_front t.storage t.entries retained_len (length name + length value) name value
  some (
    record t {
      storage = storage;
      entries = entries;
      len = retained_len + 1;
      size = retained_size + size;
      insert_count = next_insert_count;
    },
    ok t.insert_count,
  )

-- `insert` behind the question what may be evicted.
unfoldable pub commit_insert :
    QpackDynamicTable
    → List ℕ
    → List ℕ
    → ℕ
    → Result QpackDynamicTableError (ℕ × ℕ)
    → Option (QpackDynamicTable × Result QpackDynamicTableError ℕ)
commit_insert t name value size (err e) = some (t, err e)
commit_insert t name value size (ok (retained_len, retained_size)) =
    elim (checked_add t.insert_count 1) [
      | none ↦ some (t, err insert_count_overflow)
      | some next ↦ write_entry t name value size retained_len retained_size next
    ]

-- `insert` of an entry whose size is known.
unfoldable pub insert_sized :
    QpackDynamicTable
    → List ℕ
    → List ℕ
    → ℕ
    → (ℕ → Bool)
    → Option (QpackDynamicTable × Result QpackDynamicTableError ℕ)
insert_sized t name value size evictable =
    let changed =
      plan_eviction t (t.capacity - size) evictable >>= commit_insert t name value size in
    if ltb t.capacity size
    then some (t, err (entry_larger_than_capacity size t.capacity))
    else changed

unfoldable pub insert :
    QpackDynamicTable
    → List ℕ
    → List ℕ
    → (ℕ → Bool)
    → Option (QpackDynamicTable × Result QpackDynamicTableError ℕ)
insert t name value evictable = elim (entry_size name value) [
  | err e ↦ some (t, err e)
  | ok size ↦ insert_sized t name value size evictable
]

-- `&xs[from..to]`
unfoldable pub slice {ℓ} : {A : Type ℓ} → List A → ℕ → ℕ → Option (List A)
slice xs from to =
    if ltb to from
    then none
    else if ltb (length xs) to
    then none
    else some (take (to - from) (drop from xs))

-- The field in a slot.
unfoldable pub read_slot : QpackDynamicTable → ℕ → Option Field
unfolding slice
read_slot t slot = do
  entry ← get_elem? t.entries slot
  let name_end = entry.offset + entry.name_len
  name ← slice t.storage entry.offset name_end
  value ← slice t.storage name_end (name_end + entry.value_len)
  some (name, value)

abbrev pub unwrap_or : Option ℕ → ℕ → ℕ
unwrap_or none n = n
unwrap_or (some m) n = m

unfoldable pub get_absolute : QpackDynamicTable → ℕ → Option (Result QpackDynamicTableError Field)
unfolding oldest_active_absolute read_slot
get_absolute t absolute =
    let oldest_available = unwrap_or (oldest_active_absolute t) t.insert_count in
    let found = (do field ← read_slot t (t.insert_count - absolute - 1); some (ok field)) in
    if leb t.insert_count absolute
    then some (err (future_absolute_index absolute t.insert_count))
    else if ltb absolute oldest_available
    then some (err (evicted_absolute_index absolute oldest_available))
    else found

unfoldable pub get_encoder_relative :
    QpackDynamicTable → ℕ → Option (Result QpackDynamicTableError Field)
get_encoder_relative t relative =
    elim (checked_sub t.insert_count relative >>= λ count. checked_sub count 1) [
      | none ↦ some (err (encoder_relative_index_underflow t.insert_count relative))
      | some absolute ↦ get_absolute t absolute
    ]

unfoldable pub get_before_required_insert_count :
    QpackDynamicTable → ℕ → ℕ → Option (Result QpackDynamicTableError Field)
get_before_required_insert_count t absolute required_insert_count =
    if leb required_insert_count absolute
    then some (err (reference_at_or_after_required_insert_count absolute required_insert_count))
    else get_absolute t absolute

unfoldable pub get_field_relative :
    QpackDynamicTable → ℕ → ℕ → ℕ → Option (Result QpackDynamicTableError Field)
get_field_relative t required_insert_count base relative =
    elim (checked_sub base relative >>= λ left. checked_sub left 1) [
      | none ↦ some (err (field_relative_index_underflow base relative))
      | some absolute ↦ get_before_required_insert_count t absolute required_insert_count
    ]

unfoldable pub get_post_base :
    QpackDynamicTable → ℕ → ℕ → ℕ → Option (Result QpackDynamicTableError Field)
get_post_base t required_insert_count base post_base = elim (checked_add base post_base) [
  | none ↦ some (err (post_base_index_overflow base post_base))
  | some absolute ↦ get_before_required_insert_count t absolute required_insert_count
]
