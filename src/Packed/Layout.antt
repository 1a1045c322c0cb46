-- ===== src/Packed/Layout.antt =====
-- Packed slots, and the header fields that they cut out of the byte store.
use net_wire_rs.Common.{ℕ, zero, suc, ◌+◌, ◌-◌, ◌*◌, ◌≤◌, ◌<◌, arith, leb, if◌then◌else◌}
use net_wire_rs.Common.{
  List, [], ◌∷◌, ◌++◌, some, map, length, take, drop, get_elem?, ◌≡◌, refl, ap, ◌∙◌,
}
use net_wire_rs.Common.{length-take, length-drop, take-append_le, take-take_le}
use net_wire_rs.Packed.{Slot, packed_bytes, shift_slot}
use net_wire_rs.Packed.Evict.{sizes, take-suc}

-- The entries lie one behind the other from offset `at` on.
abbrev pub Layout : ℕ → List Slot → Type 0
Layout at [] = Unit
Layout at (e ∷ es) = (e.offset ≡ at) × Layout (at + (e.name_len + e.value_len)) es

-- The bytes that they take.
unfoldable pub bytes : List Slot → ℕ
bytes [] = 0
bytes (e ∷ es) = e.name_len + e.value_len + bytes es

-- A header field: its name and its value.
abbrev pub Field : Type 0
Field = List ℕ × List ℕ

-- The fields, newest first.
unfoldable pub cut : List ℕ → List Slot → List Field
cut store [] = []
cut store (e ∷ es) =
    (take e.name_len store, take e.value_len (drop e.name_len store))
    ∷ cut (drop (e.name_len + e.value_len) store) es

abbrev pub field_size : Field → ℕ
field_size (name, value) = length name + length value + 32

unfoldable pub field_sizes : List Field → ℕ
field_sizes [] = 0
field_sizes (f ∷ fs) = field_size f + field_sizes fs

-- The longest run of newest fields that fits the target.
unfoldable pub keep_fields : ℕ → List Field → List Field
keep_fields target [] = []
keep_fields target (f ∷ fs) =
    if leb (field_size f) target then f ∷ keep_fields (target - field_size f) fs else []

pub sizes-bytes : (es : List Slot) → sizes es ≡ bytes es + length es * 32
unfolding sizes bytes
sizes-bytes [] = refl
sizes-bytes (e ∷ es) = omega (arith, sizes-bytes es)

pub bytes-append : (xs ys : List Slot) → bytes (xs ++ ys) ≡ bytes xs + bytes ys
unfolding bytes
bytes-append [] ys = omega arith
bytes-append (x ∷ xs) ys = omega (arith, bytes-append xs ys)

pub length-cut : (store : List ℕ) (es : List Slot) → length (cut store es) ≡ length es
unfolding cut
length-cut store [] = refl
length-cut store (e ∷ es) = ap suc (length-cut (drop (e.name_len + e.value_len) store) es)

-- The offset of the entry at `i`, from the lengths of those before it.
pub offset-bytes :
    (at i : ℕ) (es : List Slot) (e : Slot)
    → Layout at es
    → get_elem? es i ≡ some e
    → e.offset ≡ at + bytes (take i es)
unfolding bytes
offset-bytes at i [] e l h = cc
offset-bytes at zero (x ∷ es) e l h = ground arith
offset-bytes at (suc i) (x ∷ es) e (o, l) h =
    omega (arith, offset-bytes (at + (x.name_len + x.value_len)) i es e l h)

-- No entry ends behind the packed bytes.
pub end-le-bytes :
    (i : ℕ) (es : List Slot) (e : Slot)
    → get_elem? es i ≡ some e
    → bytes (take i es) + (e.name_len + e.value_len) ≤ bytes es
unfolding bytes
end-le-bytes i [] e h = cc
end-le-bytes zero (x ∷ es) e h = ground arith
end-le-bytes (suc i) (x ∷ es) e h = omega (arith, end-le-bytes i es e h)

pub get_elem?-take {ℓ} :
    {A : Type ℓ} (n i : ℕ) (xs : List A) → i < n → get_elem? (take n xs) i ≡ get_elem? xs i
get_elem?-take zero i xs h = absurd (omega arith)
get_elem?-take (suc n) i [] h = refl
get_elem?-take (suc n) zero (x ∷ xs) h = refl
get_elem?-take (suc n) (suc i) (x ∷ xs) h = get_elem?-take n i xs (omega arith)

-- The source reads the end of the packed bytes off the last retained slot.
pub packed_bytes-bytes :
    (entries : List Slot) (count n : ℕ)
    → Layout 0 (take count entries)
    → n ≤ count
    → count ≤ length entries
    → packed_bytes entries n ≡ some (bytes (take n entries))
unfolding packed_bytes
packed_bytes-bytes entries count zero l h b = unfold bytes in refl
packed_bytes-bytes entries count (suc n) l h b =
    let (e, at, front) = take-suc n entries (omega arith) in
    let here : get_elem? (take count entries) n ≡ some e = get_elem?-take count n entries h ∙ at in
    let o : e.offset ≡ bytes (take n (take count entries)) =
      omega (arith, offset-bytes 0 n _ e l here) in
    let o' : e.offset ≡ bytes (take n entries) =
      o ∙ ap bytes (take-take_le n count entries (omega arith)) in
    let all : bytes (take (suc n) entries) ≡ bytes (take n entries) + (e.name_len + e.value_len) =
      ap bytes front ∙ bytes-append (take n entries) (e ∷ []) ∙ unfold bytes in omega arith in
    rw at (ap some (omega arith))

drop-front :
    (a m : ℕ) (xs more : List ℕ)
    → a ≤ m
    → m ≤ length xs
    → drop a (take m xs ++ more) ≡ take (m - a) (drop a xs) ++ more
drop-front zero m xs more h k = let e : m - 0 ≡ m = omega arith in rw e
drop-front (suc a) zero xs more h k = absurd (omega arith)
drop-front (suc a) (suc m) [] more h k = absurd (omega arith)
drop-front (suc a) (suc m) (x ∷ xs) more h k =
    let e : suc m - suc a ≡ m - a = omega arith in
    rw e (drop-front a m xs more (omega arith) (omega arith))

pub take-front {ℓ} :
    {A : Type ℓ} (n m : ℕ) (xs more : List A)
    → n ≤ m
    → m ≤ length xs
    → take n (take m xs ++ more) ≡ take n xs
take-front n m xs more h k =
    take-append_le n (take m xs) more (omega (arith, length-take m xs)) ∙ take-take_le n m xs h

-- `cut` looks at no byte behind the packed ones, and at no offset.
pub cut-packed :
    (store more : List ℕ) (es : List Slot)
    → bytes es ≤ length store
    → cut (take (bytes es) store ++ more) es ≡ cut store es
unfolding cut bytes
cut-packed store more [] h = refl
cut-packed store more (e ∷ es) h =
    let k = e.name_len + e.value_len in
    let m = k + bytes es in
    let (n_le, k_le, m_le) : (e.name_len ≤ m) × (k ≤ m) × (m ≤ length store) = omega arith in
    let name : take e.name_len (take m store ++ more) ≡ take e.name_len store =
      take-front e.name_len m store more n_le m_le in
    let value : take e.value_len (drop e.name_len (take m store ++ more))
        ≡ take e.value_len (drop e.name_len store) =
      ap (take e.value_len) (drop-front e.name_len m store more n_le m_le)
      ∙ take-front e.value_len (m - e.name_len) (drop e.name_len store) more (omega arith)
          (omega (arith, length-drop e.name_len store)) in
    let left : m - k ≡ bytes es = omega arith in
    let rest : cut (drop k (take m store ++ more)) es ≡ cut (drop k store) es =
      ap (λ (t : List ℕ). cut t es) (drop-front k m store more k_le m_le)
      ∙ rw left (cut-packed (drop k store) more es (omega (arith, length-drop k store))) in
    rw (name, value, rest)

pub cut-shift :
    (store : List ℕ) (by : ℕ) (es : List Slot) → cut store (map (shift_slot by) es) ≡ cut store es
unfolding cut
cut-shift store by [] = refl
cut-shift store by (e ∷ es) =
    ap (◌∷◌ (take e.name_len store, take e.value_len (drop e.name_len store)))
      (cut-shift (drop (e.name_len + e.value_len) store) by es)

pub bytes-shift : (by : ℕ) (es : List Slot) → bytes (map (shift_slot by) es) ≡ bytes es
unfolding bytes
bytes-shift by [] = refl
bytes-shift by (e ∷ es) = omega (arith, bytes-shift by es)

pub sizes-shift : (by : ℕ) (es : List Slot) → sizes (map (shift_slot by) es) ≡ sizes es
unfolding sizes
sizes-shift by [] = refl
sizes-shift by (e ∷ es) = omega (arith, sizes-shift by es)

pub Layout-shift :
    (at by : ℕ) (es : List Slot) → Layout at es → Layout (at + by) (map (shift_slot by) es)
Layout-shift at by [] l = tt
Layout-shift at by (e ∷ es) (o, l) =
    let step : at + by + (e.name_len + e.value_len) ≡ at + (e.name_len + e.value_len) + by =
      omega arith in
    (ap (λ (t : ℕ). t + by) o, rw step (Layout-shift (at + (e.name_len + e.value_len)) by es l))

pub Layout-take : (at n : ℕ) (es : List Slot) → Layout at es → Layout at (take n es)
Layout-take at zero es l = tt
Layout-take at (suc n) [] l = tt
Layout-take at (suc n) (e ∷ es) (o, l) = (o, Layout-take (at + (e.name_len + e.value_len)) n es l)
