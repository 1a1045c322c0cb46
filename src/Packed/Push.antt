-- ===== src/Packed/Push.antt =====
-- A packed store after an insertion, and how a field is read through its slot.
use net_wire_rs.Common.{ℕ, suc, ◌+◌, ◌-◌, ◌≤◌, ◌<◌, arith}
use net_wire_rs.Common.{
  List, ◌∷◌, ◌++◌, some, map, length, take, drop, get_elem?, ◌≡◌, refl, ap, sym, subst, ◌∙◌,
}
use net_wire_rs.Common.{
  length-append, length-take, length-drop, length-map, take-append, drop-append, drop-drop,
}
use net_wire_rs.Packed.{Slot, push_front, shift_slot}
use net_wire_rs.Packed.Evict.{sizes, keep, sizes-keep-le}
use net_wire_rs.Packed.Layout.{
  Layout, bytes, cut, keep_fields, sizes-bytes, cut-packed, cut-shift, sizes-shift, Layout-shift,
  get_elem?-take, offset-bytes, end-le-bytes,
}
use net_wire_rs.Packed.Fields.{cut-keep, get_elem?-cut}
use net_wire_rs.Packed.Insert.{push_front-some, front_slot}
use net_wire_rs.Packed.Store.{
  fields, IsPacked, storage_capacity-le, active_fit, length-kept-le, kept-take, shrink,
}

-- The stores after an insertion.
abbrev pub after_storage : List ℕ → List Slot → List ℕ → List ℕ → List ℕ
after_storage storage kept name value =
    name
    ++ (value
        ++ (take (bytes kept) storage ++ drop (length name + length value + bytes kept) storage))

abbrev pub after_entries : List Slot → List Slot → List ℕ → List ℕ → List Slot
after_entries entries kept name value =
    front_slot name value
    ∷ (map (shift_slot (length name + length value)) kept ++ drop (length kept + 1) entries)

module _ (storage : List ℕ) (entries : List Slot) (kept : List Slot) (name value : List ℕ) where
  take-after :
      take (length kept + 1) (after_entries entries kept name value)
      ≡ front_slot name value ∷ map (shift_slot (length name + length value)) kept
  take-after =
      let shifted = map (shift_slot (length name + length value)) kept in
      let one : length kept + 1 ≡ suc (length shifted) =
        omega (arith, length-map (shift_slot (length name + length value)) kept) in
      ap (λ (t : ℕ). take t (after_entries entries kept name value)) one
      ∙ ap (◌∷◌ (front_slot name value)) (take-append shifted (drop (length kept + 1) entries))

  cut-after :
      bytes kept ≤ length storage
      → cut
          (after_storage storage kept name value)
          (front_slot name value ∷ map (shift_slot (length name + length value)) kept)
        ≡ (name, value) ∷ cut storage kept
  unfolding cut
  cut-after h =
      let back = drop (length name + length value + bytes kept) storage in
      let packed = take (bytes kept) storage ++ back in
      let by = length name + length value in
      let rest : drop by (name ++ (value ++ packed)) ≡ packed =
        sym (drop-drop (length value) (length name) (name ++ (value ++ packed)))
        ∙ ap (drop (length value)) (drop-append name (value ++ packed))
        ∙ drop-append value packed in
      rw
        (
          take-append name (value ++ packed),
          drop-append name (value ++ packed),
          take-append value packed,
          rest,
        )
        (ap (◌∷◌ (name, value)) (cut-shift packed by kept ∙ cut-packed storage back kept h))

module _ (storage : List ℕ) (entries : List Slot) (count size limit : ℕ)
    (p : IsPacked storage entries count size limit) (name value : List ℕ)
    (fits : length name + length value + 32 ≤ limit) where
  room :
      let kept = keep (limit - (length name + length value + 32)) (take count entries) in
      (length kept + 1 ≤ length entries)
      × (length name + length value + bytes kept ≤ length storage)
  room =
      let target = limit - (length name + length value + 32) in
      let kept = keep target (take count entries) in
      omega (
        arith,
        storage_capacity-le (length storage) (length entries),
        sizes-bytes kept,
        sizes-keep-le target (take count entries),
        p.provisioned,
      )

  length-after_storage :
      let kept = keep (limit - (length name + length value + 32)) (take count entries) in
      length (after_storage storage kept name value) ≡ length storage
  length-after_storage =
      let kept = keep (limit - (length name + length value + 32)) (take count entries) in
      let front = take (bytes kept) storage in
      let back = drop (length name + length value + bytes kept) storage in
      omega (
        arith,
        room,
        length-append name (value ++ (front ++ back)),
        length-append value (front ++ back),
        length-append front back,
        length-take (bytes kept) storage,
        length-drop (length name + length value + bytes kept) storage,
      )

  length-after_entries :
      let kept = keep (limit - (length name + length value + 32)) (take count entries) in
      length (after_entries entries kept name value) ≡ length entries
  length-after_entries =
      let kept = keep (limit - (length name + length value + 32)) (take count entries) in
      let shifted = map (shift_slot (length name + length value)) kept in
      omega (
        arith,
        room,
        length-append shifted (drop (length kept + 1) entries),
        length-map (shift_slot (length name + length value)) kept,
        length-drop (length kept + 1) entries,
      )

  after-IsPacked :
      let entry_size = length name + length value + 32 in
      let kept = keep (limit - entry_size) (take count entries) in
      IsPacked
        (after_storage storage kept name value)
        (after_entries entries kept name value)
        (length kept + 1)
        (sizes kept + entry_size)
        limit
  after-IsPacked =
      let by = length name + length value in
      let target = limit - (by + 32) in
      let kept = keep target (take count entries) in
      let cap = p.provisioned in
      let front = take-after storage entries kept name value in
      let old = (shrink storage entries count size limit p target (omega arith)).0 in
      let laid : Layout 0 kept =
        subst (Layout 0) (kept-take storage entries count size limit p target) old.layout in
      let total : sizes (front_slot name value ∷ map (shift_slot by) kept) ≡ by + 32 + sizes kept =
        unfold sizes in (omega (arith, sizes-shift by kept)) in
      record {
        within = omega (arith, room, length-after_entries);
        layout = rw front (refl, Layout-shift 0 by kept laid);
        sized = rw front (omega (arith, total));
        bounded = omega (arith, sizes-keep-le target (take count entries));
        provisioned = rw (length-after_storage, length-after_entries) cap;
      }

  -- An insertion within the limit panics nowhere: it puts the new field in front of the longest
  -- run of newest fields that the limit leaves room for.
  pub push :
      let entry_size = length name + length value + 32 in
      let kept = keep (limit - entry_size) (take count entries) in
      let storage' = after_storage storage kept name value in
      let entries' = after_entries entries kept name value in
      (push_front storage entries (length kept) (length name + length value) name value
        ≡ some (storage', entries'))
      × IsPacked storage' entries' (length kept + 1) (sizes kept + entry_size) limit
      × (fields storage' entries' (length kept + 1)
          ≡ (name, value) ∷ keep_fields (limit - entry_size) (fields storage entries count))
      × (length storage' ≡ length storage)
      × (length entries' ≡ length entries)
  push =
      let by = length name + length value in
      let target = limit - (by + 32) in
      let kept = keep target (take count entries) in
      let same = kept-take storage entries count size limit p target in
      let (slots_fit, bytes_fit') = room in
      let pushed =
        push_front-some storage entries count (length kept) name value p.layout
          (length-kept-le storage entries count size limit p target) p.within slots_fit
          (rw same bytes_fit') in
      (
        rw same at pushed,
        after-IsPacked,
        ap (cut (after_storage storage kept name value))
              (take-after storage entries kept name value)
            ∙ cut-after storage entries kept name value (omega arith)
            ∙ ap (◌∷◌ (name, value)) (
                cut-keep target storage (take count entries)
                  (active_fit storage entries count size limit p)),
        length-after_storage,
        length-after_entries,
      )

-- The field at an active index, read through its slot.
pub field_at :
    (storage : List ℕ) (entries : List Slot) (count size limit i : ℕ) (e : Slot)
    → IsPacked storage entries count size limit
    → i < count
    → get_elem? entries i ≡ some e
    → (get_elem? (fields storage entries count) i
        ≡ some (
          take e.name_len (drop e.offset storage),
          take e.value_len (drop (e.offset + e.name_len) storage),
        ))
      × (e.offset + e.name_len + e.value_len ≤ length storage)
field_at storage entries count size limit i e p h at =
    let here : get_elem? (take count entries) i ≡ some e = get_elem?-take count i entries h ∙ at in
    (
      get_elem?-cut 0 i storage (take count entries) e p.layout here,
      omega (
        arith,
        offset-bytes 0 i (take count entries) e p.layout here,
        end-le-bytes i (take count entries) e here,
        active_fit storage entries count size limit p,
      ),
    )
