-- ===== src/Qpack/Table/Evicting.antt =====
-- What an insertion into src/qpack/table/dynamic.rs means for absolute indexes.
use net_wire_rs.Common.{ℕ, suc, ◌+◌, ◌-◌, ◌≤◌, ◌<◌, length, get_elem?, arith}
use net_wire_rs.Common.{List, ◌∷◌, Option, some, Bool, true, ◌≡◌, sym, subst, ◌∙◌, inl, inr}
use net_wire_rs.Common.Result.{Result, ok, word}
use native.Mathlib.Decide.{dec_lt}
use net_wire_rs.Packed.Layout.{Field, keep_fields}
use net_wire_rs.Packed.Fields.{get_elem?-keep_fields}
use net_wire_rs.Packed.Store.{length-kept-le}
use net_wire_rs.Qpack.Table.{QpackDynamicTable, QpackDynamicTableError, get_absolute, insert}
use net_wire_rs.Qpack.Table.Sound.{IsWf, contents, retained, AllEvictable}
use net_wire_rs.Qpack.Table.Insertion.{
  InsertOutcome, too_large, refused, exhausted, stored, insert-InsertOutcome,
}
use net_wire_rs.Qpack.Table.Index.{IsActive, get_absolute_cases}

-- What a successful insertion did: the old index and the new table's fields.
record IsInserted (t t' : QpackDynamicTable) (name value : List ℕ) (evictable : ℕ → Bool)
    (absolute : ℕ) : Type 0 where
  target : ℕ
  wf : IsWf t'
  is_next : absolute ≡ t.insert_count
  view : contents t' ≡ (name, value) ∷ keep_fields target (contents t)
  counts : t'.insert_count ≡ t.insert_count + 1
  lengths : t'.len ≡ length (retained t target) + 1
  fewer : length (retained t target) ≤ t.len
  evicts :
      AllEvictable evictable t.insert_count
        (length (retained t target))
        (t.len - length (retained t target))

active-find :
    (t : QpackDynamicTable) (b : ℕ)
    → IsWf t
    → IsActive t b
    → (f : Field) × (get_absolute t b ≡ some (ok f))
      × (get_elem? (contents t) (t.insert_count - b - 1) ≡ some f)
active-find t b w a = elim (get_absolute_cases t b w) [
  | inl (_, found) ↦ found
  | inr (inl (future, _)) ↦ absurd (omega arith)
  | inr (inr (gone, _)) ↦ absurd (omega arith)
]

module _ (t u : QpackDynamicTable) (name value : List ℕ) (evictable : ℕ → Bool) (target k : ℕ)
    (w : IsWf t) (w' : IsWf u) (fewer : k ≤ t.len)
    (view : contents u ≡ (name, value) ∷ keep_fields target (contents t))
    (next : u.insert_count ≡ t.insert_count + 1) (len_u : u.len ≡ k + 1) where
  new_found : get_absolute u t.insert_count ≡ some (ok (name, value))
  new_found =
      let (f, e, at) = active-find u t.insert_count w' (omega arith) in
      let first : u.insert_count - t.insert_count - 1 ≡ 0 = omega arith in
      let at' : get_elem? ((name, value) ∷ keep_fields target (contents t)) 0 ≡ some f =
        rw (first, view) at at in
      e ∙ cc at'

  old_found :
      (b : ℕ)
      → b < t.insert_count
      → IsActive u b
      → IsActive t b × (get_absolute u b ≡ get_absolute t b)
  old_found b lt a =
      let active : IsActive t b = omega arith in
      let (f, e, at) = active-find u b w' a in
      let (g, e', at') = active-find t b w active in
      let place : u.insert_count - b - 1 ≡ suc (t.insert_count - b - 1) = omega arith in
      let kept : get_elem? (keep_fields target (contents t)) (t.insert_count - b - 1) ≡ some f =
        rw (place, view) at at in
      let same : some f ≡ some g =
        sym (get_elem?-keep_fields target (t.insert_count - b - 1) (contents t) f kept) ∙ at' in
      (active, e ∙ cc (same, e'))

  all_evictable :
      AllEvictable evictable t.insert_count k (t.len - k)
      → (b : ℕ) → IsActive t b
      → ¬ IsActive u b
      → evictable b ≡ true
  all_evictable all b a gone =
      let past : b + k < t.insert_count = elim (dec_lt (b + k) t.insert_count) [
        | yes h ↦ h
        | no h ↦ absurd (gone (omega arith))
      ] in
      let i = t.insert_count - b - 1 - k in
      let index : t.insert_count - (k + i) - 1 ≡ b = omega arith in
      rw index at (all i (omega arith))

IsInserted-of_outcome :
    (t t' : QpackDynamicTable) (name value : List ℕ) (evictable : ℕ → Bool) (absolute size : ℕ)
    {r : Option (QpackDynamicTable × Result QpackDynamicTableError ℕ)}
    → IsWf t
    → InsertOutcome t name value evictable size r
    → r ≡ some (t', ok absolute)
    → IsInserted t t' name value evictable absolute
IsInserted-of_outcome t t' name value evictable absolute size w (too_large over q) e = cc
IsInserted-of_outcome t t' name value evictable absolute size w (refused i no_way q) e = cc
IsInserted-of_outcome t t' name value evictable absolute size w (exhausted full q) e = cc
IsInserted-of_outcome t t' name value evictable absolute size w
      (stored u {absolute = a} q w' view cap next len_u all) e =
    let target = t.capacity - size in
    let fewer = length-kept-le t.storage t.entries t.len t.size t.capacity w.packed target in
    let same : u ≡ t' = cc in
    let number : absolute ≡ t.insert_count = cc in
    subst (λ v. IsInserted t v name value evictable absolute) same
      (record {
        target = target;
        wf = w';
        is_next = number;
        view = view;
        counts = next;
        lengths = len_u;
        fewer = fewer;
        evicts = all;
      })

module _ (t t' : QpackDynamicTable) (name value : List ℕ) (evictable : ℕ → Bool) (absolute : ℕ)
    (w : IsWf t) (small : length name + length value + 32 < word)
    (e : insert t name value evictable ≡ some (t', ok absolute)) where
  done : IsInserted t t' name value evictable absolute
  done =
      IsInserted-of_outcome t t' name value evictable absolute (length name + length value + 32) w
        (insert-InsertOutcome t name value evictable w small) e

  -- A successful insertion into a well-formed QPACK table leaves a well-formed table and returns
  -- the old insert count as the new entry's absolute index, which finds the field inserted.
  pub insert-get_absolute :
      IsWf t' × (absolute ≡ t.insert_count) × (get_absolute t' absolute ≡ some (ok (name, value)))
  insert-get_absolute =
      let d = done in
      (
        d.wf,
        d.is_next,
        rw (d.is_next) (
            new_found t t' name value evictable d.target (length (retained t d.target)) w d.wf
              d.fewer d.view d.counts d.lengths),
      )

  -- After a successful insertion into a well-formed QPACK table, an older absolute index that is
  -- still active was active before and finds the field that it found.
  pub insert-stable :
      (b : ℕ)
      → b < t.insert_count
      → IsActive t' b
      → IsActive t b × (get_absolute t' b ≡ get_absolute t b)
  insert-stable =
      let d = done in
      old_found t t' name value evictable d.target (length (retained t d.target)) w d.wf d.fewer
        d.view d.counts d.lengths

  -- If an insertion into a well-formed QPACK table succeeds, every absolute index that was active
  -- before and is not after it is one that the caller's test allowed to be evicted.
  pub insert-evictable : (b : ℕ) → IsActive t b → ¬ IsActive t' b → evictable b ≡ true
  insert-evictable =
      let d = done in
      all_evictable t t' name value evictable d.target (length (retained t d.target)) w d.wf d.fewer
        d.view d.counts d.lengths d.evicts
