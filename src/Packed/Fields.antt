-- ===== src/Packed/Fields.antt =====
-- The fields of a packed store: eviction on slots is eviction on fields, and a field is found by
-- its slot's offset.
use net_wire_rs.Common.{ℕ, zero, suc, ◌+◌, ◌-◌, ◌≤◌, arith}
use net_wire_rs.Common.{List, [], ◌∷◌, some, length, take, drop, get_elem?, ◌≡◌, refl}
use net_wire_rs.Common.{length-take, length-drop, drop-drop}
use net_wire_rs.Packed.{Slot, entry_size_from_slot}
use net_wire_rs.Packed.Evict.{sizes, keep}
use net_wire_rs.Packed.Layout.{Field, Layout, bytes, cut, field_size, field_sizes, keep_fields}

field_size-cut :
    (store : List ℕ) (e : Slot)
    → e.name_len + e.value_len ≤ length store
    → field_size (take e.name_len store, take e.value_len (drop e.name_len store))
      ≡ entry_size_from_slot e
field_size-cut store e h = omega (
  arith,
  length-take e.name_len store,
  length-drop e.name_len store,
  length-take e.value_len (drop e.name_len store),
)

pub field_sizes-cut :
    (store : List ℕ) (es : List Slot)
    → bytes es ≤ length store
    → field_sizes (cut store es) ≡ sizes es
unfolding field_sizes cut bytes sizes
field_sizes-cut store [] h = refl
field_sizes-cut store (e ∷ es) h =
    let k = e.name_len + e.value_len in
    omega (
      arith,
      field_size-cut store e (omega arith),
      field_sizes-cut (drop k store) es (omega (arith, length-drop k store)),
    )

pub cut-keep :
    (t : ℕ) (store : List ℕ) (es : List Slot)
    → bytes es ≤ length store
    → cut store (keep t es) ≡ keep_fields t (cut store es)
unfolding cut bytes keep keep_fields
cut-keep t store [] h = refl
cut-keep t store (e ∷ es) h =
    let k = e.name_len + e.value_len in
    let size = field_size-cut store e (omega arith) in
    rw size (
      ground (
        arith,
        cut-keep (t - entry_size_from_slot e) (drop k store) es
            (omega (arith, length-drop k store)),
      ))

-- The field at a slot's place, from the slot's offset.
pub get_elem?-cut :
    (at i : ℕ) (store : List ℕ) (es : List Slot) (e : Slot)
    → Layout at es
    → get_elem? es i ≡ some e
    → get_elem? (cut (drop at store) es) i
      ≡ some (
        take e.name_len (drop e.offset store),
        take e.value_len (drop (e.offset + e.name_len) store),
      )
unfolding cut
get_elem?-cut at i store [] e l h = cc
get_elem?-cut at zero store (x ∷ es) e (o, l) h =
    let same : x ≡ e = cc in rw (← same, o) (rw (← drop-drop x.name_len at store) refl)
get_elem?-cut at (suc i) store (x ∷ es) e (o, l) h =
    let k = x.name_len + x.value_len in
    rw (drop-drop k at store) (get_elem?-cut (at + k) i store es e l h)

-- What is kept is found where it was.
pub get_elem?-keep_fields :
    (target i : ℕ) (fs : List Field) (f : Field)
    → get_elem? (keep_fields target fs) i ≡ some f
    → get_elem? fs i ≡ some f
unfolding keep_fields
get_elem?-keep_fields target i [] f h = cc
get_elem?-keep_fields target zero (x ∷ fs) f h = ground arith
get_elem?-keep_fields target (suc i) (x ∷ fs) f h =
    ground (arith, get_elem?-keep_fields (target - field_size x) i fs f)
