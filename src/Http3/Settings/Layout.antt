-- ===== src/Http3/Settings/Layout.antt =====
-- The settings that the iterator of src/http3/settings.rs yields from a payload that was validated.
use net_wire_rs.Common.{
  ℕ, zero, suc, ◌+◌, ◌-◌, ◌≤◌, ◌<◌, List, [], ◌∷◌, ◌++◌, length, take, drop, ◌≡◌, refl, ap, sym,
  ◌∙◌, arith, length-drop, take-append-drop, drop-drop, inl, inr, some, subst, Bool-cases, ◌==◌,
}
use net_wire_rs.Common.Result.{ok, Result-cases}
use net_wire_rs.Quic.Varint.{QuicVarInt, byte_len, parse_from}
use net_wire_rs.Quic.Varint.{parse as parse_varint}
use net_wire_rs.Quic.Varint.Parse.{byte_len-tail_len}
use net_wire_rs.Http3.Frame.{Http3Frame, payload, frame_type}
use net_wire_rs.Http3.Payload.{type_settings}
use net_wire_rs.Http3.Settings.{
  Http3Setting, Http3Settings, validate_remaining, validate_settings, settings_from_frame,
  parse_setting, items, settings_of,
}

unfoldable pub all_bytes : List Http3Setting → List ℕ
all_bytes [] = []
all_bytes (s ∷ rest) = s.bytes ++ all_bytes rest

parse-length :
    (bytes : List ℕ) (v : QuicVarInt)
    → parse_varint bytes ≡ ok v
    → byte_len v.length_of ≤ length bytes
unfolding parse_varint parse_from
parse-length [] v e = cc
parse-length (b ∷ rest) v e = ground arith

-- What one step of the iterator takes off a payload that goes on with two integers.
pub parse_setting-parsed :
    (bytes : List ℕ) (i v : QuicVarInt)
    → parse_varint bytes ≡ ok i
    → parse_varint (drop (byte_len i.length_of) bytes) ≡ ok v
    → let remaining = drop (byte_len v.length_of) (drop (byte_len i.length_of) bytes) in
      (parse_setting bytes
        ≡ some (
          record { bytes = take (length bytes - length remaining) bytes; id = i; value = v },
          remaining,
        ))
      × (take (length bytes - length remaining) bytes ++ remaining ≡ bytes)
      × (length remaining < length bytes)
unfolding parse_setting
parse_setting-parsed bytes i v p q =
    let n = byte_len i.length_of in
    let m = byte_len v.length_of in
    let after = drop n bytes in
    let remaining = drop m after in
    let size : length remaining ≡ length bytes - n - m =
      omega (arith, length-drop m after, length-drop n bytes) in
    let fits = parse-length bytes i p in
    let fits' : m ≤ length bytes - n = omega (arith, parse-length after v q, length-drop n bytes) in
    let front : length bytes - length remaining ≡ n + m = omega arith in
    let rest : drop (n + m) bytes ≡ remaining = sym (drop-drop m n bytes) in
    (
      rw (parse_setting, p, q),
      ap (λ (k : ℕ). take k bytes ++ remaining) front
          ∙ ap (λ (x : List ℕ). take (n + m) bytes ++ x) (sym rest)
          ∙ take-append-drop (n + m) bytes,
      omega (arith, byte_len-tail_len i.length_of),
    )

pub items_step :
    (rounds : ℕ) (bytes : List ℕ) {s : Http3Setting} {remaining : List ℕ}
    → parse_setting bytes ≡ some (s, remaining)
    → items (suc rounds) bytes ≡ s ∷ items rounds remaining
unfolding items
items_step rounds bytes e = rw (items, e)

items_bytes :
    (rounds : ℕ) (whole remaining : List ℕ) (h : length remaining ≤ rounds)
    → validate_remaining rounds whole remaining h ≡ ok tt
    → all_bytes (items rounds remaining) ≡ remaining
unfolding validate_remaining items all_bytes
items_bytes zero whole [] h e = refl
items_bytes (suc rounds) whole [] h e = unfold parse_setting parse_varint in refl
items_bytes zero whole (b ∷ rest) h e = absurd (omega arith)
items_bytes (suc rounds) whole (b ∷ rest) h e = elim (Result-cases (parse_varint (b ∷ rest))) [
  | inr (x, p) ↦ cc (rw (validate_remaining, p) at e)
  | inl (i, p) ↦ elim (Result-cases (parse_varint (drop (byte_len i.length_of) (b ∷ rest)))) [
    | inr (x, q) ↦ cc (rw (validate_remaining, p, q) at e)
    | inl (v, q) ↦
        let (step, split, less) = parse_setting-parsed (b ∷ rest) i v p q in
        let e' = rw (validate_remaining, p, q) at e in
        let later =
          items_bytes rounds whole
            (drop (byte_len v.length_of) (drop (byte_len i.length_of) (b ∷ rest))) _ e' in
        let n =
          length (b ∷ rest)
          - length (drop (byte_len v.length_of) (drop (byte_len i.length_of) (b ∷ rest))) in
        ap all_bytes (items_step rounds (b ∷ rest) step)
        ∙ ap (λ (x : List ℕ). take n (b ∷ rest) ++ x) later
        ∙ split
  ]
]

-- The settings of a frame that was accepted are its payload, cut at their ends.
pub all_bytes-settings_of :
    (f : Http3Frame) (s : Http3Settings)
    → settings_from_frame f ≡ ok s
    → (s.settings_frame ≡ f) × (all_bytes (settings_of s) ≡ payload f)
unfolding settings_from_frame validate_settings settings_of
all_bytes-settings_of f s e = elim (Bool-cases (frame_type f == type_settings)) [
  | inr other ↦ cc (rw (settings_from_frame, other) at e)
  | inl right ↦ elim (Result-cases (validate_settings (payload f))) [
    | inr (x, q) ↦ cc (rw (settings_from_frame, right, q) at e)
    | inl (_, q) ↦
        let same : record { settings_frame = f } ≡ s =
          cc (rw (settings_from_frame, right, q) at e) in
        let cut = items_bytes (length (payload f)) (payload f) (payload f) (omega arith) q in
        (
          sym (ap (λ (x : Http3Settings). x.settings_frame) same),
          subst (λ (x : Http3Settings). all_bytes (settings_of x) ≡ payload f) same cut,
        )
  ]
]
