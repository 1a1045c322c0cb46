-- ===== src/Hpack/Table/Spec.antt =====
-- What src/http2/hpack/table.rs promises: a list of header fields under a maximum size. Any
-- history of calls on the packed stores answers as the same history on the list does.
use net_wire_rs.Common.{ℕ, ◌-◌, ◌<◌, ltb, if◌then◌else◌, All}
use net_wire_rs.Common.{List, [], ◌∷◌, Option, some, ◌≡◌, refl}
use net_wire_rs.Common.{ltb→lt, ltb→le, Bool-cases, inl, inr, true}
use net_wire_rs.Common.Result.{Result, ok, err, word}
use net_wire_rs.Packed.{◌>>=◌}
use net_wire_rs.Packed.Layout.{Field, field_size, keep_fields}
use net_wire_rs.Hpack.Table.{
  HpackDynamicTable, HpackDynamicTableError, HpackDynamicTableInsertResult, inserted,
  not_inserted_oversized, maximum_size_exceeds_capacity, insert, clear, set_maximum_size,
}
use net_wire_rs.Hpack.Table.Sound.{
  IsWf, contents, set_maximum_size_lem, clear-IsWf, insert_fits, insert_oversized,
}

-- The abstract table.
pub record FieldList : Type 0 where
  pub held : List Field
  pub maximum : ℕ
  pub ceiling : ℕ

abbrev pub view : HpackDynamicTable → FieldList
view t = record { held = contents t; maximum = t.maximum_size; ceiling = t.capacity }

pub data Call : Type 0 where
  inserts : Field → Call
  resizes : ℕ → Call
  clears : Call

pub data Answer : Type 0 where
  insertion : Result HpackDynamicTableError HpackDynamicTableInsertResult → Answer
  resizing : Result HpackDynamicTableError (Unit {0}) → Answer
  done : Answer

-- A call of the source.
unfoldable pub step : HpackDynamicTable → Call → Option (HpackDynamicTable × Answer)
step t (inserts (name, value)) = do (t', r) ← insert t name value; some (t', insertion r)
step t (resizes m) = do (t', r) ← set_maximum_size t m; some (t', resizing r)
step t clears = some (clear t, done)

-- The same call on the abstract table.
unfoldable pub spec_step : FieldList → Call → FieldList × Answer
spec_step l (inserts f) =
    if ltb l.maximum (field_size f)
    then (record l { held = [] }, insertion (ok not_inserted_oversized))
    else (
      record l { held = f ∷ keep_fields (l.maximum - field_size f) l.held },
      insertion (ok inserted),
    )
spec_step l (resizes m) =
    if ltb l.ceiling m
    then (l, resizing (err (maximum_size_exceeds_capacity m l.ceiling)))
    else (record l { held = keep_fields m l.held; maximum = m }, resizing (ok tt))
spec_step l clears = (record l { held = [] }, done)

unfoldable pub run : HpackDynamicTable → List Call → Option (HpackDynamicTable × List Answer)
unfolding step
run t [] = some (t, [])
run t (c ∷ cs) = do (t', a) ← step t c; (u, as') ← run t' cs; some (u, a ∷ as')

unfoldable pub spec_run : FieldList → List Call → FieldList × List Answer
unfolding spec_step
spec_run l [] = (l, [])
spec_run l (c ∷ cs) = let (l', a) = spec_step l c in let (m, as') = spec_run l' cs in (m, a ∷ as')

-- The name and the value of an inserted field are Rust slices whose entry size is a usize.
abbrev pub IsAddressable : Call → Type 0
IsAddressable (inserts f) = field_size f < word
IsAddressable (resizes m) = Unit
IsAddressable clears = Unit

-- A maximum above the capacity is refused and changes nothing.
over_limit :
    (t : HpackDynamicTable) (m : ℕ)
    → ltb t.capacity m ≡ true
    → set_maximum_size t m ≡ some (t, err (maximum_size_exceeds_capacity m t.capacity))
unfolding set_maximum_size
over_limit t m over = rw over

view_eq :
    (t : HpackDynamicTable) (fs : List Field) (m k : ℕ)
    → contents t ≡ fs
    → t.maximum_size ≡ m
    → t.capacity ≡ k
    → view t ≡ record { held = fs; maximum = m; ceiling = k }
view_eq t fs m k e f g = λ i. record { held = e i; maximum = f i; ceiling = g i }

step-refines :
    (t : HpackDynamicTable) (c : Call)
    → IsWf t
    → IsAddressable c
    → (t' : HpackDynamicTable) × (step t c ≡ some (t', (spec_step (view t) c).1))
      × IsWf t'
      × (view t' ≡ (spec_step (view t) c).0)
unfolding step spec_step clear
step-refines t (inserts (name, value)) w h =
    elim (Bool-cases (ltb t.maximum_size (field_size (name, value)))) [
      | inl over ↦
          let (v, gone) = clear-IsWf t w in
          (
            clear t,
            rw (over, insert_oversized t name value h (ltb→lt t.maximum_size _ over)),
            v,
            rw over (view_eq (clear t) [] t.maximum_size t.capacity gone refl refl),
          )
      | inr fits ↦
          let (t', e, v, c, m, k) = insert_fits t name value w h (ltb→le t.maximum_size _ fits) in
          (t', rw (fits, e), v, rw fits (view_eq t' _ t.maximum_size t.capacity c m k))
    ]
step-refines t (resizes m) w h = elim (Bool-cases (ltb t.capacity m)) [
  | inl over ↦ (t, rw (over, over_limit t m over), w, rw over)
  | inr fits ↦
      let (t', e, v, c, mm, k) = set_maximum_size_lem t m w (ltb→le t.capacity m fits) in
      (t', rw (fits, e), v, rw fits (view_eq t' _ m t.capacity c mm k))
]
step-refines t clears w h =
    let (v, gone) = clear-IsWf t w in
    (clear t, refl, v, view_eq (clear t) [] t.maximum_size t.capacity gone refl refl)

-- On a well-formed table, any history of insertions (of fields whose entry size is a usize), size
-- changes and clears runs without a panic, gives the answers of the abstract list of fields under
-- the same history, keeps the table well formed, and leaves the fields, the maximum and the
-- capacity of that list.
pub run-refines :
    (t : HpackDynamicTable) (calls : List Call)
    → IsWf t
    → All IsAddressable calls
    → (t' : HpackDynamicTable) × (run t calls ≡ some (t', (spec_run (view t) calls).1))
      × IsWf t'
      × (view t' ≡ (spec_run (view t) calls).0)
unfolding run spec_run
run-refines t [] w h = (t, refl, w, refl)
run-refines t (c ∷ cs) w (hc, hcs) =
    let (t', e, w', v) = step-refines t c w hc in
    let (u, f, w'', v') = run-refines t' cs w' hcs in (u, rw (e, ← v, f), w'', rw (← v) v')
