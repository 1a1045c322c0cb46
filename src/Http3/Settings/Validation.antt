-- ===== src/Http3/Settings/Validation.antt =====
-- `validate_semantics` of src/http3/settings.rs against what the settings of a peer mean.
use net_wire_rs.Common.{
  ℕ, ◌+◌, ◌<◌, ◌==◌, if◌then◌else◌, true, false, List, [], ◌∷◌, ◌++◌, Option, none, some, length,
  ◌≡◌, refl, sym, ap, subst, ◌∙◌, inl, inr, arith, Bool-cases, append_assoc, append-nil,
  length-append, ==→eq,
}
use net_wire_rs.Common.Result.{Result, ok, err, word}
use net_wire_rs.Http3.Settings.{
  Http3Setting, Http3Settings, Http3PeerSettings, default_settings, settings_of,
  settings_from_frame, validate_semantics, Http3SettingsSemanticError, prohibited_setting,
  record_setting, has_id, next_offset, validate_loop, duplicate_setting, prohibited_setting_at,
  id_qpack_max_table_capacity, id_max_field_section_size, id_qpack_blocked_streams,
}
use net_wire_rs.Http3.Frame.{Http3Frame, payload}
use net_wire_rs.Http3.Settings.Layout.{all_bytes, all_bytes-settings_of}

-- The value of the first setting with an identifier.
unfoldable pub value_of : ℕ → List Http3Setting → Option ℕ
value_of id [] = none
value_of id (s ∷ rest) =
    let later = value_of id rest in if s.id.value == id then some s.value.value else later

abbrev pub or_else {ℓ} : {A : Type ℓ} → Option A → A → A
or_else none d = d
or_else (some v) d = v

-- No setting is reserved for HTTP/2, and no identifier stands twice or among those before.
abbrev pub AreAcceptable : List Http3Setting → List Http3Setting → Type 0
AreAcceptable previous [] = Unit {0}
AreAcceptable previous (s ∷ rest) =
    (prohibited_setting s.id.value ≡ false)
    × ((has_id s.id.value previous ≡ false) × AreAcceptable (previous ++ (s ∷ [])) rest)

-- What the values of some settings make of a peer's settings.
abbrev pub with_values : Http3PeerSettings → List Http3Setting → Http3PeerSettings
with_values p rest = record {
  qpack_max_table_capacity =
      or_else (value_of id_qpack_max_table_capacity rest) p.qpack_max_table_capacity;
  maximum_field_section_size = elim (value_of id_max_field_section_size rest) [
    | none ↦ p.maximum_field_section_size
    | some v ↦ some v
  ];
  qpack_blocked_streams = or_else (value_of id_qpack_blocked_streams rest) p.qpack_blocked_streams;
}

-- The outcome of a validation: the settings recorded, or the first setting that is not acceptable,
-- with where its bytes begin.
pub data Validated (peer : Http3PeerSettings) (offset : ℕ) (previous all : List Http3Setting)
    : Result Http3SettingsSemanticError Http3PeerSettings → Type 0 where
  accepted :
      {r : Result Http3SettingsSemanticError Http3PeerSettings}
      → AreAcceptable previous all
      → r ≡ ok (with_values peer all)
      → Validated peer offset previous all r
  reserved :
      {r : Result Http3SettingsSemanticError Http3PeerSettings} (before : List Http3Setting)
      (s : Http3Setting) (after : List Http3Setting)
      → all ≡ before ++ (s ∷ after)
      → AreAcceptable previous before
      → prohibited_setting s.id.value ≡ true
      → r ≡ err (prohibited_setting_at s.id.value (offset + length (all_bytes before)))
      → Validated peer offset previous all r
  repeated :
      {r : Result Http3SettingsSemanticError Http3PeerSettings} (before : List Http3Setting)
      (s : Http3Setting) (after : List Http3Setting)
      → all ≡ before ++ (s ∷ after)
      → AreAcceptable previous before
      → has_id s.id.value (previous ++ before) ≡ true
      → r ≡ err (duplicate_setting s.id.value (offset + length (all_bytes before)))
      → Validated peer offset previous all r

has_id-append :
    (id : ℕ) (xs ys : List Http3Setting)
    → has_id id (xs ++ ys) ≡ (if has_id id xs then true else has_id id ys)
unfolding has_id
has_id-append id [] ys = refl
has_id-append id (x ∷ xs) ys = ground (arith, has_id-append id xs ys)

-- An identifier that stands before some acceptable settings has no value among them.
value_of-seen :
    (id : ℕ) (previous rest : List Http3Setting)
    → has_id id previous ≡ true
    → AreAcceptable previous rest
    → value_of id rest ≡ none
unfolding value_of
value_of-seen id previous [] h a = refl
value_of-seen id previous (s ∷ rest) h (_, (new, a)) = elim (Bool-cases (s.id.value == id)) [
  | inl same ↦
      let e = ==→eq s.id.value id same in
      absurd (ground (arith, h, subst (λ (x : ℕ). has_id x previous ≡ false) e new))
  | inr other ↦ rw other (
      value_of-seen id (previous ++ (s ∷ [])) rest (has_id-append id previous (s ∷ []) ∙ rw h refl)
        a)
]

has_id-last :
    (previous : List Http3Setting) (s : Http3Setting)
    → has_id s.id.value (previous ++ (s ∷ [])) ≡ true
unfolding has_id
has_id-last previous s = ground (arith, has_id-append s.id.value previous (s ∷ []))

-- Recording the first setting and then the values of the others is recording all values.
pub with_values-record :
    (p : Http3PeerSettings) (previous rest : List Http3Setting) (s : Http3Setting)
    → AreAcceptable (previous ++ (s ∷ [])) rest
    → with_values (record_setting p s.id.value s.value.value) rest ≡ with_values p (s ∷ rest)
unfolding record_setting value_of
with_values-record p previous rest s a =
    ground (arith, value_of-seen s.id.value (previous ++ (s ∷ [])) rest (has_id-last previous s) a)

-- A setting that is acceptable in front of a validated run.
Validated-cons :
    (peer : Http3PeerSettings) (offset : ℕ) (previous rest : List Http3Setting) (s : Http3Setting)
    {r : Result Http3SettingsSemanticError Http3PeerSettings}
    → prohibited_setting s.id.value ≡ false
    → has_id s.id.value previous ≡ false
    → Validated
        (record_setting peer s.id.value s.value.value)
        (offset + length s.bytes)
        (previous ++ (s ∷ []))
        rest
        r
    → Validated peer offset previous (s ∷ rest) r
unfolding all_bytes
Validated-cons peer offset previous rest s p n (accepted a q) =
    accepted (p, (n, a)) (q ∙ ap ok (with_values-record peer previous rest s a))
Validated-cons peer offset previous rest s p n (reserved before t after split a h q) =
    reserved (s ∷ before) t after (ap (◌∷◌ s) split) (p, (n, a)) h
      (q
        ∙ ap (λ (o : ℕ). err (prohibited_setting_at t.id.value o))
            (omega (arith, length-append s.bytes (all_bytes before))))
Validated-cons peer offset previous rest s p n (repeated before t after split a h q) =
    repeated (s ∷ before) t after (ap (◌∷◌ s) split) (p, (n, a))
      (ap (has_id t.id.value) (sym (append_assoc previous (s ∷ []) before)) ∙ h)
      (q
        ∙ ap (λ (o : ℕ). err (duplicate_setting t.id.value o))
            (omega (arith, length-append s.bytes (all_bytes before))))

validate_loop-Validated :
    (peer : Http3PeerSettings) (offset : ℕ) (previous all : List Http3Setting)
    → offset + length (all_bytes all) < word
    → Validated peer offset previous all (validate_loop peer offset previous all)
unfolding validate_loop all_bytes value_of
validate_loop-Validated peer offset previous [] h = accepted tt refl
validate_loop-Validated peer offset previous (s ∷ rest) h =
    let size = length-append s.bytes (all_bytes rest) in
    let next : next_offset offset (length s.bytes) ≡ offset + length s.bytes =
      ground (arith, size) in
    elim (Bool-cases (prohibited_setting s.id.value)) [
      | inl bad ↦
          reserved [] s rest refl tt bad
            (rw bad (ap (λ (o : ℕ). err (prohibited_setting_at s.id.value o)) (omega arith)))
      | inr fine ↦ elim (Bool-cases (has_id s.id.value previous)) [
        | inl again ↦
            repeated [] s rest refl tt (ap (has_id s.id.value) (append-nil previous) ∙ again) (
              rw (fine, again) (ap (λ (o : ℕ). err (duplicate_setting s.id.value o)) (omega arith)))
        | inr new ↦
            rw (fine, new, next)
              (Validated-cons peer offset previous rest s fine new (
                validate_loop-Validated (record_setting peer s.id.value s.value.value)
                  (offset + length s.bytes) (previous ++ (s ∷ [])) rest (omega arith)))
      ]
    ]

-- For a SETTINGS frame that was accepted and whose payload length is a u64, the settings that the
-- iterator yields are the payload cut at their ends, and `validate_semantics` records the values
-- of acceptable settings over the defaults, or reports the first setting that is reserved for
-- HTTP/2 or repeats an identifier, with the offset of its bytes.
pub validate_semantics-Validated :
    (f : Http3Frame) (s : Http3Settings)
    → settings_from_frame f ≡ ok s
    → length (payload f) < word
    → (all_bytes (settings_of s) ≡ payload f)
      × Validated default_settings 0 [] (settings_of s) (validate_semantics s)
unfolding validate_semantics
validate_semantics-Validated f s e h =
    let (_, cut) = all_bytes-settings_of f s e in
    (
      cut,
      validate_loop-Validated default_settings 0 [] (settings_of s) (omega (arith, ap length cut)),
    )
