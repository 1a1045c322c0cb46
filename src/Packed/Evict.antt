-- ===== src/Packed/Evict.antt =====
-- Eviction from the old end keeps the longest run of newest entries that fits.
use net_wire_rs.Common.{ℕ, zero, suc, ◌+◌, ◌-◌, ◌≤◌, ◌<◌, arith, ltb, leb, if◌then◌else◌}
use net_wire_rs.Common.{List, [], ◌∷◌, ◌++◌, some, length, take, get_elem?, ◌≡◌, refl, ap, ◌∙◌}
use net_wire_rs.Common.{length-take, Bool-cases, ltb→lt, ltb→le, inl, inr}
use net_wire_rs.Common.Result.{checked_sub}
use net_wire_rs.Packed.{Slot, entry_size_from_slot, evict_loop}

unfoldable pub sizes : List Slot → ℕ
sizes [] = 0
sizes (e ∷ es) = entry_size_from_slot e + sizes es

-- The longest run of entries from the front whose sizes fit the target.
unfoldable pub keep : ℕ → List Slot → List Slot
keep target [] = []
keep target (e ∷ es) =
    if leb (entry_size_from_slot e) target
    then e ∷ keep (target - entry_size_from_slot e) es
    else []

pub sizes-append : (xs ys : List Slot) → sizes (xs ++ ys) ≡ sizes xs + sizes ys
unfolding sizes
sizes-append [] ys = omega arith
sizes-append (x ∷ xs) ys = omega (arith, sizes-append xs ys)

pub keep_all : (t : ℕ) (xs : List Slot) → sizes xs ≤ t → keep t xs ≡ xs
unfolding sizes keep
keep_all t [] h = refl
keep_all t (x ∷ xs) h = ground (arith, keep_all (t - entry_size_from_slot x) xs)

-- An oldest entry that does not fit with the others makes no difference.
pub keep_snoc :
    (t : ℕ) (xs : List Slot) (e : Slot)
    → t < sizes (xs ++ (e ∷ []))
    → keep t (xs ++ (e ∷ [])) ≡ keep t xs
unfolding sizes keep
keep_snoc t [] e h = ground arith
keep_snoc t (x ∷ xs) e h = ground (arith, keep_snoc (t - entry_size_from_slot x) xs e)

pub sizes-keep-le : (t : ℕ) (xs : List Slot) → sizes (keep t xs) ≤ t
unfolding sizes keep
sizes-keep-le t [] = omega arith
sizes-keep-le t (x ∷ xs) = ground (arith, sizes-keep-le (t - entry_size_from_slot x) xs)

pub length-keep-le : (t : ℕ) (xs : List Slot) → length (keep t xs) ≤ length xs
unfolding keep
length-keep-le t [] = omega arith
length-keep-le t (x ∷ xs) = ground (arith, length-keep-le (t - entry_size_from_slot x) xs)

pub keep-take : (t : ℕ) (xs : List Slot) → keep t xs ≡ take (length (keep t xs)) xs
unfolding keep
keep-take t [] = refl
keep-take t (x ∷ xs) = ground (arith, keep-take (t - entry_size_from_slot x) xs)

pub take-suc {ℓ} :
    {A : Type ℓ} (n : ℕ) (xs : List A)
    → n < length xs
    → (x : A) × (get_elem? xs n ≡ some x) × (take (suc n) xs ≡ take n xs ++ (x ∷ []))
take-suc n [] h = absurd (omega arith)
take-suc zero (x ∷ xs) h = (x, refl, refl)
take-suc (suc n) (x ∷ xs) h = let (y, e, f) = take-suc n xs (omega arith) in (y, e, ap (◌∷◌ x) f)

-- For a size that is the sum of the active entries' sizes, the eviction loop panics nowhere and
-- ends with the count and the size of the longest run of newest entries whose sizes fit the
-- target.
pub evict_loop-keep :
    (entries : List Slot) (n t : ℕ)
    → n ≤ length entries
    → let kept = keep t (take n entries) in
      evict_loop entries n (sizes (take n entries)) t ≡ some (length kept, sizes kept)
unfolding evict_loop
evict_loop-keep entries zero t h = unfold keep sizes in refl
evict_loop-keep entries (suc n) t h =
    let (e, at, cut) = take-suc n entries h in
    let total = sizes (take (suc n) entries) in
    let split : total ≡ sizes (take n entries) + entry_size_from_slot e =
      ap sizes cut ∙ sizes-append (take n entries) (e ∷ []) ∙ unfold sizes in omega arith in
    elim (Bool-cases (ltb t total)) [
      | inl over ↦
          let k : keep t (take (suc n) entries) ≡ keep t (take n entries) =
            ap (keep t) cut ∙ keep_snoc t (take n entries) e (rw cut at (ltb→lt t total over)) in
          let left : checked_sub total (entry_size_from_slot e) ≡ some (sizes (take n entries)) =
            ground arith in
          rw (over, at, left, k) (evict_loop-keep entries n t (omega arith))
      | inr fits ↦
          let k : keep t (take (suc n) entries) ≡ take (suc n) entries =
            keep_all t _ (ltb→le t total fits) in
          rw (fits, k)
            (ap some (ap (λ (m : ℕ). (m, total)) (omega (arith, length-take (suc n) entries))))
    ]
