-- ===== src/Packed/Insert.antt =====
-- `push_front` never panics where there is room, and puts one field in front of those retained.
use net_wire_rs.Common.{ℕ, zero, suc, ◌+◌, ◌-◌, ◌≤◌, arith}
use net_wire_rs.Common.{List, [], ◌∷◌, ◌++◌, some, map, length, take, drop, ◌≡◌, refl, ap, sym, ◌∙◌}
use net_wire_rs.Common.{
  length-append, length-take, length-drop, drop-drop, take-append, drop-append, le→ltb, lt→ltb,
  eq→==,
}
use net_wire_rs.Packed.{
  Slot, copy_within, copy_from_slice, shift_slots, shift_slot, push_front, write_bytes, write_slots,
}
use net_wire_rs.Packed.Layout.{Layout, bytes, packed_bytes-bytes, take-front}

module _ {ℓ} {A : Type ℓ} where
  copy_within-some :
      (xs : List A) (n at : ℕ)
      → at + n ≤ length xs
      → copy_within xs n at ≡ some (take at xs ++ (take n xs ++ drop (at + n) xs))
  unfolding copy_within
  copy_within-some xs n at h = rw (le→ltb (length xs) (at + n) h)

  pub copy_from_slice-some :
      (xs : List A) (at end : ℕ) (ys : List A)
      → end ≤ length xs
      → at + length ys ≡ end
      → copy_from_slice xs at end ys ≡ some (take at xs ++ (ys ++ drop end xs))
  unfolding copy_from_slice
  copy_from_slice-some xs at end ys h e = rw (
    le→ltb end at (omega arith),
    le→ltb (length xs) end h,
    eq→== (length ys) (end - at) (omega arith),
  )

  pub drop-length_le : (n : ℕ) (xs ys : List A) → length xs ≡ n → drop n (xs ++ ys) ≡ ys
  drop-length_le n xs ys e = rw (← e) (drop-append xs ys)

abbrev pub front_slot : List ℕ → List ℕ → Slot
front_slot name value = record { offset = 0; name_len = length name; value_len = length value }

-- The name and the value written over the bytes that the move leaves free.
write_bytes-some :
    (storage : List ℕ) (kept : ℕ) (name value : List ℕ)
    → length name + length value + kept ≤ length storage
    → let by = length name + length value in
      write_bytes storage kept by name value
      ≡ some (name ++ (value ++ (take kept storage ++ drop (by + kept) storage)))
unfolding write_bytes
write_bytes-some storage kept name value h =
    let n = length name in
    let v = length value in
    let gap = take (n + v) storage in
    let rest = take kept storage ++ drop (n + v + kept) storage in
    let e : length gap ≡ n + v = omega (arith, length-take (n + v) storage) in
    let size = length-append gap rest in
    let first : copy_from_slice (gap ++ rest) 0 n name ≡ some (name ++ drop n (gap ++ rest)) =
      copy_from_slice-some (gap ++ rest) 0 n name (omega arith) (omega arith) in
    let named = name ++ drop n (gap ++ rest) in
    let size' : length named ≡ length (gap ++ rest) =
      omega (arith, length-append name (drop n (gap ++ rest)), length-drop n (gap ++ rest)) in
    let tail : drop (n + v) named ≡ rest =
      sym (drop-drop v n named)
      ∙ ap (drop v) (drop-append name (drop n (gap ++ rest)))
      ∙ drop-drop v n (gap ++ rest)
      ∙ drop-length_le (n + v) gap rest e in
    rw (copy_within-some storage kept (n + v) h, first)
      (copy_from_slice-some named n (n + v) value (omega arith) refl
        ∙ rw (take-append name (drop n (gap ++ rest)), tail))

write_slots-some :
    (entries : List Slot) (n by : ℕ) (new : Slot)
    → n + 1 ≤ length entries
    → write_slots entries n by new
      ≡ some (new ∷ (map (shift_slot by) (take n entries) ++ drop (n + 1) entries))
unfolding write_slots shift_slots
write_slots-some [] n by new h = absurd (omega arith)
write_slots-some (x ∷ es) zero by new h =
    copy_from_slice-some (x ∷ es) 0 1 (new ∷ []) (omega arith) refl
write_slots-some (x ∷ es) (suc n) by new h =
    let d = drop (suc n) es in
    let front = x ∷ take n es in
    let two : 1 + suc n ≡ suc (suc n) = omega arith in
    let two' : suc n + 1 ≡ suc (suc n) = omega arith in
    let size : length (take n es) ≡ n = omega (arith, length-take n es) in
    let moved : copy_within (x ∷ es) (suc n) 1 ≡ some (x ∷ (front ++ d)) =
      copy_within-some (x ∷ es) (suc n) 1 (omega arith) ∙ rw two in
    let front_eq : take n (take n es ++ d) ≡ take n es =
      take-front n n es d (omega arith) (omega arith) in
    let back_eq : drop n (take n es ++ d) ≡ d = drop-length_le n (take n es) d size in
    let room : length (x ∷ (front ++ d)) ≡ suc (suc (n + length d)) =
      omega (arith, length-append (take n es) d, size) in
    let shifted : shift_slots (x ∷ (front ++ d)) (suc n) by
        ≡ some (x ∷ (map (shift_slot by) front ++ d)) =
      rw
        (two', le→ltb (length (x ∷ (front ++ d))) (suc (suc n)) (omega arith), front_eq, back_eq) in
    rw (lt→ltb 0 (suc n) (omega arith), moved, shifted)
      (copy_from_slice-some (x ∷ (map (shift_slot by) front ++ d)) 0 1 (new ∷ []) (omega arith) refl
        ∙ rw two')

-- With room in both stores nothing panics. The new field's bytes stand first, then those of the
-- entries retained, whose slots moved on with them.
pub push_front-some :
    (storage : List ℕ) (entries : List Slot) (count n : ℕ) (name value : List ℕ)
    → Layout 0 (take count entries)
    → n ≤ count
    → count ≤ length entries
    → n + 1 ≤ length entries
    → length name + length value + bytes (take n entries) ≤ length storage
    → let by = length name + length value in
      push_front storage entries n by name value
      ≡ some (
        name
            ++ (value
                ++ (take (bytes (take n entries)) storage
                    ++ drop (by + bytes (take n entries)) storage)),
        front_slot name value ∷ (map (shift_slot by) (take n entries) ++ drop (n + 1) entries),
      )
unfolding push_front
push_front-some storage entries count n name value l hn hc room fits = rw (
  packed_bytes-bytes entries count n l hn hc,
  write_bytes-some storage (bytes (take n entries)) name value fits,
  write_slots-some entries n (length name + length value) (front_slot name value) room,
)
