-- ===== src/Common/Slices.antt =====
-- Rust's writes into slices. `none` is a panic: an index or a range out of bounds.
use Prim.Native.Nat.{ℕ, zero, suc, ◌+◌, ◌-◌, ◌≤◌, ◌<◌}
use mathlib.Core.Path.{◌≡◌, refl, sym, ap, ◌∙◌}
use mathlib.Core.Bool.{◌||◌}
use mathlib.Core.List.{List, [], ◌∷◌, ◌++◌, append_assoc}
use mathlib.Core.Option.{Option, none, some}
use native.Mathlib.Omega.{arith}
use net_wire_rs.Common.Lists.{
  length, take, drop, length-append, take-append, drop-append, drop-drop,
}
use net_wire_rs.Common.Tests.{ltb, if◌then◌else◌, le→ltb, lt→ltb}

module _ {ℓ} {A : Type ℓ} where
  -- `&xs[..n]`
  abbrev pub slice_to : List A → ℕ → Option (List A)
  slice_to xs n = if ltb (length xs) n then none else some (take n xs)

  -- `xs[i] = x`
  unfoldable pub set_at : List A → ℕ → A → Option (List A)
  set_at xs i x = if ltb i (length xs) then some (take i xs ++ (x ∷ drop (i + 1) xs)) else none

  -- `xs.copy_within(start..end, at)`
  unfoldable pub copy_range : List A → ℕ → ℕ → ℕ → Option (List A)
  copy_range xs start end at =
      if ltb end start || ltb (length xs) end || ltb (length xs) (at + (end - start))
      then none
      else some (take at xs ++ (take (end - start) (drop start xs) ++ drop (at + (end - start)) xs))

  unfoldable pub repeat : ℕ → A → List A
  repeat zero x = []
  repeat (suc n) x = x ∷ repeat n x

  -- `xs[start..end].fill(x)`
  unfoldable pub fill : List A → ℕ → ℕ → A → Option (List A)
  unfolding repeat
  fill xs start end x =
      if ltb end start || ltb (length xs) end
      then none
      else some (take start xs ++ (repeat (end - start) x ++ drop end xs))

  pub take-length_eq : (n : ℕ) (xs ys : List A) → length xs ≡ n → take n (xs ++ ys) ≡ xs
  take-length_eq n xs ys e = rw (← e) (take-append xs ys)

  pub drop-length_eq : (n : ℕ) (xs ys : List A) → length xs ≡ n → drop n (xs ++ ys) ≡ ys
  drop-length_eq n xs ys e = rw (← e) (drop-append xs ys)

  -- Behind two parts of a list.
  pub drop_two :
      (n : ℕ) (xs ys zs : List A) → length xs + length ys ≡ n → drop n (xs ++ (ys ++ zs)) ≡ zs
  drop_two n xs ys zs e =
      ap (drop n) (sym (append_assoc xs ys zs))
      ∙ drop-length_eq n (xs ++ ys) zs (omega (arith, length-append xs ys))

  pub set_at-end :
      (xs ys : List A) (n : ℕ) (x : A)
      → length xs ≡ n
      → 0 < length ys
      → set_at (xs ++ ys) n x ≡ some (xs ++ (x ∷ drop 1 ys))
  unfolding set_at
  set_at-end xs ys n x e h =
      rw
        (
          lt→ltb n (length (xs ++ ys)) (omega (arith, length-append xs ys)),
          take-length_eq n xs ys e,
          sym (drop-drop 1 n (xs ++ ys)),
          drop-length_eq n xs ys e,
        )
        refl

  -- The part behind a gap moved down over it.
  pub copy_range_down :
      (xs gap ys zs : List A) (start end at : ℕ)
      → at ≡ length xs
      → start ≡ length xs + length gap
      → end ≡ start + length ys
      → copy_range (xs ++ (gap ++ (ys ++ zs))) start end at
        ≡ some (xs ++ (ys ++ drop (length ys) (gap ++ (ys ++ zs))))
  unfolding copy_range
  copy_range_down xs gap ys zs start end at h hs he =
      let all = xs ++ (gap ++ (ys ++ zs)) in
      let size : length all ≡ length xs + (length gap + (length ys + length zs)) = omega (
        arith,
        length-append xs (gap ++ (ys ++ zs)),
        length-append gap (ys ++ zs),
        length-append ys zs,
      ) in
      let n : end - start ≡ length ys = omega arith in
      rw
        (
          le→ltb end start (omega arith),
          le→ltb (length all) end (omega arith),
          n,
          le→ltb (length all) (at + length ys) (omega arith),
          take-length_eq at xs (gap ++ (ys ++ zs)) (omega arith),
          drop_two start xs gap (ys ++ zs) (omega arith),
          take-append ys zs,
          sym (drop-drop (length ys) at all),
          drop-length_eq at xs (gap ++ (ys ++ zs)) (omega arith),
        )
        refl

  pub fill_after :
      (xs ys : List A) (start end : ℕ) (x : A)
      → length xs ≡ start
      → start ≤ end
      → end ≤ start + length ys
      → fill (xs ++ ys) start end x ≡ some (xs ++ (repeat (end - start) x ++ drop end (xs ++ ys)))
  unfolding fill
  fill_after xs ys start end x e lo hi =
      rw
        (
          le→ltb end start lo,
          le→ltb (length (xs ++ ys)) end (omega (arith, length-append xs ys)),
          take-length_eq start xs ys e,
        )
        refl

  pub length-repeat : (n : ℕ) (x : A) → length (repeat n x) ≡ n
  unfolding repeat
  length-repeat zero x = refl
  length-repeat (suc n) x = ap suc (length-repeat n x)
