-- ===== src/Tests/Hpack.antt =====
-- src/http2/hpack on small inputs, among them the examples of RFC 7541, appendix C.1.
use net_wire_rs.Common.{ℕ, zero, suc, ◌-◌, ◌^◌, ◌≤◌, ◌<◌, arith}
use net_wire_rs.Common.{List, [], ◌∷◌, none, some, length, take, drop, get_elem?, ◌≡◌, refl}
use net_wire_rs.Common.Result.{ok, err, word}
use net_wire_rs.Packed.{Slot, empty_slot, evict_loop, storage_capacity}
use net_wire_rs.Packed.Evict.{keep, sizes, evict_loop-keep}
use net_wire_rs.Packed.Layout.{Field, keep_fields}
use net_wire_rs.Hpack.Integer.{
  HpackInteger, HpackIntegerBuilder, parse, build, encoded_len, parse_loop, incomplete,
}
use net_wire_rs.Hpack.Integer.RoundTrip.{IsLegal, parse-build_integer}
use net_wire_rs.Hpack.Integer.Bounds.{parse_bounds}
use net_wire_rs.Hpack.Table.{HpackDynamicTable, new, insert, get, inserted, set_maximum_size}
use net_wire_rs.Hpack.Table.Sound.{IsWf, contents, new-IsWf, insert_fits, set_maximum_size_lem}
use net_wire_rs.Hpack.Table.Lookup.{get-contents}
use net_wire_rs.Hpack.Table.Spec.{view, Call, inserts, resizes, clears, run, spec_run, run-refines}

-- 1337 with a 5-bit prefix.
abbrev bytes_1337 : List ℕ
bytes_1337 = 0x1f ∷ 0x9a ∷ 0x0a ∷ 0xff ∷ []

abbrev view_1337 : HpackInteger
view_1337 = record { bytes = 0x1f ∷ 0x9a ∷ 0x0a ∷ []; prefix_bits = 5; value = 1337; high_bits = 0 }

parse_1337 : parse bytes_1337 5 ≡ ok view_1337
unfolding parse
parse_1337 = refl

abbrev builder : HpackIntegerBuilder
builder = record { destination = 1 ∷ 2 ∷ 3 ∷ 4 ∷ []; prefix_bits = 5; high_bits = 0; value = 1337 }

built : (build builder).0 ≡ 0x1f ∷ 0x9a ∷ 0x0a ∷ 4 ∷ []
unfolding build
built = refl

builder-IsLegal : IsLegal 5 0 1337
builder-IsLegal = record {
  at_least = omega arith;
  at_most = omega arith;
  byte = omega arith;
  clear = refl;
  u64 = omega arith;
}

builder_room : encoded_len 1337 (2 ^ 5 - 1) ≤ 4
unfolding encoded_len
builder_room = omega arith

parse-build_integer_example :
    let (dst, result) = build builder in
    (v : HpackInteger) × (result ≡ ok v)
    × (v.value ≡ 1337)
    × (v.high_bits ≡ 0)
    × (parse dst 5 ≡ ok v)
    × (length dst ≡ 4)
    × (drop (length v.bytes) dst ≡ drop (length v.bytes) builder.destination)
parse-build_integer_example = parse-build_integer builder builder-IsLegal builder_room

parse_bounds_example :
    (n : ℕ) × (view_1337.bytes ≡ take n bytes_1337) × (1 ≤ n) × (n ≤ 11) × (n ≤ 4) × (1337 < word)
parse_bounds_example = parse_bounds bytes_1337 5 view_1337 parse_1337

cut_short : parse_loop 31 0 1 2 (0x9a ∷ []) ≡ err (incomplete 3 2)
unfolding parse_loop
cut_short = refl

-- A table of 80 bytes for its fields.
abbrev zeros : ℕ → List ℕ
zeros zero = []
zeros (suc n) = 0 ∷ zeros n

abbrev slots : List Slot
slots = empty_slot ∷ empty_slot ∷ empty_slot ∷ []

abbrev small : HpackDynamicTable
small = record {
  storage = zeros 48;
  entries = slots;
  count = 0;
  size = 0;
  maximum_size = 80;
  capacity = 80;
}

new-small : new (zeros 48) slots 80 ≡ ok small
unfolding new storage_capacity
new-small = refl

small-IsWf : IsWf small
small-IsWf = (new-IsWf (zeros 48) slots 80 small (omega arith) new-small).0

new-IsWf_example : IsWf small × (contents small ≡ [])
new-IsWf_example = new-IsWf (zeros 48) slots 80 small (omega arith) new-small

abbrev alpha : Field
alpha = (97 ∷ 98 ∷ [], 99 ∷ [])

abbrev beta : Field
beta = (100 ∷ [], 101 ∷ 102 ∷ 103 ∷ [])

abbrev gamma : Field
gamma = (zeros 20, 7 ∷ [])

-- The third insertion evicts both others.
abbrev calls : List Call
calls = inserts alpha ∷ inserts beta ∷ inserts gamma ∷ resizes 81 ∷ resizes 50 ∷ clears ∷ []

run-refines_example :
    (t' : HpackDynamicTable) × (run small calls ≡ some (t', (spec_run (view small) calls).1))
    × IsWf t'
    × (view t' ≡ (spec_run (view small) calls).0)
run-refines_example =
    run-refines small calls small-IsWf
      (omega arith, (omega arith, (omega arith, (tt, (tt, (tt, tt))))))

spec_run_calls :
    (spec_run (view small) (inserts alpha ∷ inserts beta ∷ inserts gamma ∷ [])).0.held ≡ gamma ∷ []
unfolding spec_run keep_fields
spec_run_calls = refl

insert_fits_example :
    (t' : HpackDynamicTable) × (insert small (97 ∷ 98 ∷ []) (99 ∷ []) ≡ some (t', ok inserted))
    × IsWf t'
    × (contents t' ≡ alpha ∷ keep_fields (80 - 35) (contents small))
    × (t'.maximum_size ≡ 80)
    × (t'.capacity ≡ 80)
insert_fits_example =
    insert_fits small (97 ∷ 98 ∷ []) (99 ∷ []) small-IsWf (omega arith) (omega arith)

get-contents_example : (get small 1 ≡ get_elem? (contents small) 0) × (get small 0 ≡ none)
get-contents_example = get-contents small 0 small-IsWf

set_maximum_size_lem_example :
    (t' : HpackDynamicTable) × (set_maximum_size small 40 ≡ some (t', ok tt))
    × IsWf t'
    × (contents t' ≡ keep_fields 40 (contents small))
    × (t'.maximum_size ≡ 40)
    × (t'.capacity ≡ 80)
set_maximum_size_lem_example = set_maximum_size_lem small 40 small-IsWf (omega arith)

-- Three entries of 35, 33 and 40 bytes; the newest two fit 70 bytes.
abbrev three : List Slot
three =
    record { offset = 0; name_len = 2; value_len = 1 }
    ∷ record { offset = 3; name_len = 1; value_len = 0 }
    ∷ record { offset = 4; name_len = 4; value_len = 4 }
    ∷ []

evict_three : evict_loop three 3 108 70 ≡ some (2, 68)
unfolding evict_loop
evict_three = refl

evict_loop-keep_example :
    evict_loop three 3 (sizes (take 3 three)) 70
    ≡ some (length (keep 70 (take 3 three)), sizes (keep 70 (take 3 three)))
evict_loop-keep_example = evict_loop-keep three 3 70 (omega arith)
