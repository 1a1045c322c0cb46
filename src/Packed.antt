-- ===== src/Packed.antt =====
-- The storage discipline that src/http2/hpack/table.rs and src/qpack/table/dynamic.rs share: a
-- byte store with the entries' names and values packed newest first, and slots that locate them.
-- `none` is a panic of the source: an index or a range out of bounds, or an underflow.
pub mod Evict
pub mod Layout
pub mod Fields
pub mod Insert
pub mod Store
pub mod Push
use net_wire_rs.Common.{ℕ, zero, suc, ◌+◌, ◌-◌, ◌*◌, ◌^◌, ◌≤◌, ◌<◌, min, arith, ltb, if◌then◌else◌}
use net_wire_rs.Common.{List, [], ◌∷◌, ◌++◌, Option, none, some, map, length, take, drop, get_elem?}
use net_wire_rs.Common.{◌||◌, not, ◌==◌}
use net_wire_rs.Common.Result.{word, checked_sub}

pub record Slot : Type 0 where
  pub offset : ℕ
  pub name_len : ℕ
  pub value_len : ℕ

-- HpackDynamicTableEntry::EMPTY and QpackDynamicTableEntry::EMPTY
abbrev pub empty_slot : Slot
empty_slot = record { offset = 0; name_len = 0; value_len = 0 }

infixl 5 ◌>>=◌
abbrev pub ◌>>=◌ {ℓ κ} : {A : Type ℓ} {B : Type κ} → Option A → (A → Option B) → Option B
none >>= f = none
some a >>= f = f a

abbrev pub saturating_add : ℕ → ℕ → ℕ
saturating_add a b = min (a + b) (word - 1)

abbrev pub saturating_mul : ℕ → ℕ → ℕ
saturating_mul a b = min (a * b) (word - 1)

unfoldable pub storage_capacity : ℕ → ℕ → ℕ
storage_capacity storage_len entry_capacity =
    let bytes = saturating_add storage_len 32 in
    let entries = saturating_add (saturating_mul entry_capacity 32) 31 in
    if ltb bytes entries then bytes else entries

abbrev pub entry_size_from_slot : Slot → ℕ
entry_size_from_slot e = e.name_len + e.value_len + 32

-- `while count > 0 && size > target { count -= 1; size -= entry_size(entries[count]) }`
unfoldable pub evict_loop : List Slot → ℕ → ℕ → ℕ → Option (ℕ × ℕ)
evict_loop entries zero size target = some (0, size)
evict_loop entries (suc count) size target =
    let smaller = (do
      e ← get_elem? entries count
      size' ← checked_sub size (entry_size_from_slot e)
      evict_loop entries count size' target) in
    if ltb target size then smaller else some (suc count, size)

-- `xs.copy_within(0..n, at)`
unfoldable pub copy_within {ℓ} : {A : Type ℓ} → List A → ℕ → ℕ → Option (List A)
copy_within xs n at =
    if ltb (length xs) (at + n) then none else some (take at xs ++ (take n xs ++ drop (at + n) xs))

-- `xs[at..end].copy_from_slice(ys)`
unfoldable pub copy_from_slice {ℓ} : {A : Type ℓ} → List A → ℕ → ℕ → List A → Option (List A)
copy_from_slice xs at end ys =
    if ltb end at || ltb (length xs) end || not (length ys == end - at)
    then none
    else some (take at xs ++ (ys ++ drop end xs))

abbrev pub shift_slot : ℕ → Slot → Slot
shift_slot n e = record e { offset = e.offset + n }

-- `for entry in &mut entries[1..=n] { entry.offset += by }`
unfoldable pub shift_slots : List Slot → ℕ → ℕ → Option (List Slot)
shift_slots entries n by =
    if ltb (length entries) (n + 1)
    then none
    else some
        (take 1 entries ++ (map (shift_slot by) (take n (drop 1 entries)) ++ drop (n + 1) entries))

-- Where the bytes of the first `n` entries end.
unfoldable pub packed_bytes : List Slot → ℕ → Option ℕ
packed_bytes entries zero = some 0
packed_bytes entries (suc n) = do
  last ← get_elem? entries n
  some (last.offset + last.name_len + last.value_len)

-- The bytes of the entries retained move up, and the new name and value go in front of them.
unfoldable pub write_bytes : List ℕ → ℕ → ℕ → List ℕ → List ℕ → Option (List ℕ)
unfolding copy_within copy_from_slice
write_bytes storage retained_bytes byte_len name value = do
  moved ← copy_within storage retained_bytes byte_len
  named ← copy_from_slice moved 0 (length name) name
  copy_from_slice named (length name) byte_len value

-- The slots retained move up by one and their offsets by the new bytes; the new slot is the first.
unfoldable pub write_slots : List Slot → ℕ → ℕ → Slot → Option (List Slot)
unfolding copy_within shift_slots copy_from_slice
write_slots entries retained byte_len slot = do
  slots ←
      (if ltb 0 retained
        then (do shifted ← copy_within entries retained 1; shift_slots shifted retained byte_len)
        else some entries)
  copy_from_slice slots 0 1 (slot ∷ [])

-- Both stores after the newest entry was put in front of `retained` others. The source writes
-- them in turns; no write to one store reads the other.
unfoldable pub push_front :
    List ℕ → List Slot → ℕ → ℕ → List ℕ → List ℕ → Option (List ℕ × List Slot)
unfolding packed_bytes write_bytes write_slots
push_front storage entries retained byte_len name value = do
  retained_bytes ← packed_bytes entries retained
  stored ← write_bytes storage retained_bytes byte_len name value
  slots ←
      write_slots entries retained byte_len
        (record { offset = 0; name_len = length name; value_len = length value })
  some (stored, slots)
