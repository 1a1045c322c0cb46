-- ===== src/Tests/Qpack.antt =====
-- src/qpack/table/dynamic.rs on a small table.
use net_wire_rs.Common.{ℕ, zero, suc, ◌+◌, ◌-◌, ◌≤◌, ◌<◌, ◌==◌, arith}
use net_wire_rs.Common.{List, [], ◌∷◌, some, Bool, true, false, get_elem?, ◌≡◌, refl, ◌⊎◌}
use net_wire_rs.Common.Result.{ok, err}
use net_wire_rs.Packed.{empty_slot, storage_capacity}
use net_wire_rs.Packed.Evict.{sizes}
use net_wire_rs.Packed.Layout.{Field}
use net_wire_rs.Qpack.Table.{
  entry_size, insert_sized, plan_eviction, commit_insert, write_entry, QpackDynamicTable, insert,
  set_capacity, eviction_blocked, get_absolute, future_absolute_index, evicted_absolute_index,
}
use net_wire_rs.Qpack.Table.Sound.{IsWf, contents, CapacityOutcome, set_capacity-CapacityOutcome}
use net_wire_rs.Qpack.Table.Insertion.{InsertOutcome, insert-InsertOutcome}
use net_wire_rs.Qpack.Table.Index.{IsActive, get_absolute_cases}
use net_wire_rs.Qpack.Table.Evicting.{insert-get_absolute, insert-stable, insert-evictable}

abbrev zeros : ℕ → List ℕ
zeros zero = []
zeros (suc n) = 0 ∷ zeros n

-- Two entries of 36 and 35 bytes; the older one has absolute index 0.
abbrev pub two : QpackDynamicTable
two = record {
  storage = 100 ∷ 101 ∷ 102 ∷ 103 ∷ 97 ∷ 98 ∷ 99 ∷ zeros 41;
  entries =
      record { offset = 0; name_len = 1; value_len = 3 }
      ∷ record { offset = 4; name_len = 2; value_len = 1 }
      ∷ empty_slot
      ∷ [];
  len = 2;
  size = 71;
  capacity = 80;
  storage_capacity = 80;
  insert_count = 2;
}

-- The same after a field of 34 bytes took the place of the older entry.
abbrev pub next : QpackDynamicTable
next = record {
  storage = 9 ∷ 8 ∷ 100 ∷ 101 ∷ 102 ∷ 103 ∷ 99 ∷ zeros 41;
  entries =
      record { offset = 0; name_len = 1; value_len = 1 }
      ∷ record { offset = 2; name_len = 1; value_len = 3 }
      ∷ empty_slot
      ∷ [];
  len = 2;
  size = 70;
  capacity = 80;
  storage_capacity = 80;
  insert_count = 3;
}

abbrev evictable : ℕ → Bool
evictable i = i == 0

inserted : insert two (9 ∷ []) (8 ∷ []) evictable ≡ some (next, ok 2)
unfolding insert entry_size insert_sized plan_eviction commit_insert write_entry
inserted = refl

kept_back : insert two (9 ∷ []) (8 ∷ []) (λ i. false) ≡ some (two, err (eviction_blocked 0))
unfolding insert entry_size insert_sized plan_eviction commit_insert
kept_back = refl

pub two-IsWf : IsWf two
two-IsWf = record {
  packed = record {
    within = omega arith;
    layout = (refl, (refl, tt));
    sized = unfold sizes in refl;
    bounded = omega arith;
    provisioned = unfold storage_capacity in omega arith;
  };
  backed = unfold storage_capacity in refl;
  counted = omega arith;
  u64 = omega arith;
}

insert-InsertOutcome_example :
    InsertOutcome two (9 ∷ []) (8 ∷ []) evictable 34 (insert two (9 ∷ []) (8 ∷ []) evictable)
insert-InsertOutcome_example =
    insert-InsertOutcome two (9 ∷ []) (8 ∷ []) evictable two-IsWf (omega arith)

set_capacity-CapacityOutcome_example :
    CapacityOutcome two 40 evictable (set_capacity two 40 evictable)
set_capacity-CapacityOutcome_example = set_capacity-CapacityOutcome two 40 evictable two-IsWf

insert-get_absolute_example :
    IsWf next × (2 ≡ two.insert_count) × (get_absolute next 2 ≡ some (ok (9 ∷ [], 8 ∷ [])))
insert-get_absolute_example =
    insert-get_absolute two next (9 ∷ []) (8 ∷ []) evictable 2 two-IsWf (omega arith) inserted

insert-stable_example : IsActive two 1 × (get_absolute next 1 ≡ get_absolute two 1)
insert-stable_example =
    insert-stable two next (9 ∷ []) (8 ∷ []) evictable 2 two-IsWf (omega arith) inserted 1
      (omega arith) (omega arith, omega arith)

insert-evictable_example : evictable 0 ≡ true
insert-evictable_example =
    insert-evictable two next (9 ∷ []) (8 ∷ []) evictable 2 two-IsWf (omega arith) inserted 0
      (omega arith, omega arith) (λ a. omega arith)

get_absolute_cases_example :
    (IsActive two 1
      × ((f : Field) × (get_absolute two 1 ≡ some (ok f)) × (get_elem? (contents two) 0 ≡ some f)))
    ⊎ (((2 ≤ 1) × (get_absolute two 1 ≡ some (err (future_absolute_index 1 2))))
        ⊎ ((1 + 2 < 2) × (get_absolute two 1 ≡ some (err (evicted_absolute_index 1 (2 - 2))))))
get_absolute_cases_example = get_absolute_cases two 1 two-IsWf
