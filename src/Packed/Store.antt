-- ===== src/Packed/Store.antt =====
-- The invariant of a packed store, and what eviction, insertion and lookup do to its fields.
use net_wire_rs.Common.{ℕ, ◌+◌, ◌*◌, ◌≤◌, arith}
use net_wire_rs.Common.{List, [], ◌∷◌, some, length, take, ◌≡◌, refl, ap, sym, ◌∙◌}
use net_wire_rs.Common.{length-take, take-take_le}
use net_wire_rs.Packed.{Slot, storage_capacity, evict_loop}
use net_wire_rs.Packed.Evict.{
  sizes, keep, keep-take, length-keep-le, sizes-keep-le, evict_loop-keep,
}
use net_wire_rs.Packed.Layout.{Layout, bytes, Field, cut, keep_fields, sizes-bytes, Layout-take}
use net_wire_rs.Packed.Fields.{cut-keep}

-- The active fields, newest first.
abbrev pub fields : List ℕ → List Slot → ℕ → List Field
fields storage entries count = cut storage (take count entries)

pub record IsPacked (storage : List ℕ) (entries : List Slot) (count size limit : ℕ) : Type 0 where
  pub within : count ≤ length entries
  pub layout : Layout 0 (take count entries)
  pub sized : size ≡ sizes (take count entries)
  pub bounded : size ≤ limit
  pub provisioned : limit ≤ storage_capacity (length storage) (length entries)

pub storage_capacity-le :
    (s n : ℕ) → (storage_capacity s n ≤ s + 32) × (storage_capacity s n ≤ n * 32 + 31)
unfolding storage_capacity
storage_capacity-le s n = ground arith

bytes-zero : (es : List Slot) → length es ≡ 0 → bytes es ≡ 0
unfolding bytes
bytes-zero [] h = refl
bytes-zero (e ∷ es) h = absurd (omega arith)

-- Entries whose sizes are within a limit that the stores provide for have their bytes in the store.
bytes_fit :
    (s n limit : ℕ) (es : List Slot)
    → limit ≤ storage_capacity s n
    → sizes es ≤ limit
    → bytes es ≤ s
bytes_fit s n limit es p h = grind (arith, storage_capacity-le s n, sizes-bytes es, bytes-zero es)

pub empty-IsPacked :
    (storage : List ℕ) (entries : List Slot) (limit : ℕ)
    → limit ≤ storage_capacity (length storage) (length entries)
    → IsPacked storage entries 0 0 limit
empty-IsPacked storage entries limit h = record {
  within = omega arith;
  layout = tt;
  sized = unfold sizes in refl;
  bounded = omega arith;
  provisioned = h;
}

module _ (storage : List ℕ) (entries : List Slot) (count size limit : ℕ)
    (p : IsPacked storage entries count size limit) where
  pub active_fit : bytes (take count entries) ≤ length storage
  active_fit =
      bytes_fit (length storage) (length entries) limit (take count entries) p.provisioned
        (omega (arith, p.sized, p.bounded))

  pub length-kept-le : (target : ℕ) → length (keep target (take count entries)) ≤ count
  length-kept-le target =
      omega (arith, length-keep-le target (take count entries), length-take count entries)

  -- The run retained is a run of the whole store's entries.
  pub kept-take :
      (target : ℕ)
      → take (length (keep target (take count entries))) entries ≡ keep target (take count entries)
  kept-take target =
      sym (take-take_le _ count entries (length-kept-le target))
      ∙ sym (keep-take target (take count entries))

  pub evict_loop-kept :
      (target : ℕ)
      → let kept = keep target (take count entries) in
        evict_loop entries count size target ≡ some (length kept, sizes kept)
  evict_loop-kept target = rw p.sized (evict_loop-keep entries count target p.within)

  -- After eviction to a target the longest run of newest fields within the target is left.
  pub shrink :
      (target : ℕ)
      → target ≤ storage_capacity (length storage) (length entries)
      → let kept = keep target (take count entries) in
        IsPacked storage entries (length kept) (sizes kept) target
        × (fields storage entries (length kept) ≡ keep_fields target (fields storage entries count))
  shrink target h =
      let kept = keep target (take count entries) in
      let same = kept-take target in
      (
        record {
          within = omega (arith, length-kept-le target, p.within);
          layout =
              rw (← take-take_le (length kept) count entries (length-kept-le target))
                (Layout-take 0 _ _ p.layout);
          sized = ap sizes (sym same);
          bounded = sizes-keep-le target (take count entries);
          provisioned = h;
        },
        ap (cut storage) same ∙ cut-keep target storage (take count entries) active_fit,
      )
