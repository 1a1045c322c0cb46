-- ===== src/Http3/Settings/Builder/Written.antt =====
-- src/http3/settings.rs: what the builder writes for settings that fit.
use net_wire_rs.Common.{
  ℕ, ◌+◌, ◌<◌, ◌≤◌, ◌^◌, false, List, [], ◌∷◌, ◌++◌, some, length, drop, ◌≡◌, refl, ap, sym, ◌∙◌,
  arith, append_assoc, length-append, length-drop, drop-drop,
}
use net_wire_rs.Common.Result.{ok, word}
use net_wire_rs.Packed.{copy_from_slice}
use net_wire_rs.Quic.Varint.{byte_len}
use net_wire_rs.Http3.Frame.RoundTrip.{short, size, length-short, put}
use net_wire_rs.Http3.Settings.{prohibited_setting}
use net_wire_rs.Http3.Payload.Builder.RoundTrip.{encoded, encode_varint-ok, encoded_bytes-short}
use net_wire_rs.Http3.Payload.Builder.{EncodedVarInt, encoded_bytes}
use net_wire_rs.Http3.Settings.Builder.{
  Http3SettingValue, has_outbound, encode_setting, add_setting, validate_outbound, write_settings,
}

-- The bytes of a setting, and of a payload.
abbrev pub wire_of : Http3SettingValue → List ℕ
wire_of s = short s.sent_id ++ short s.sent_value

unfoldable pub payload_of : List Http3SettingValue → List ℕ
payload_of [] = []
payload_of (s ∷ rest) = wire_of s ++ payload_of rest

-- Every identifier and value has at most 62 bits, no identifier is reserved for HTTP/2 and none
-- stands twice or among those before.
abbrev pub AreSendable : List Http3SettingValue → List Http3SettingValue → Type 0
AreSendable previous [] = Unit {0}
AreSendable previous (s ∷ rest) =
    (s.sent_id < 2 ^ 62)
    × ((s.sent_value < 2 ^ 62)
        × ((prohibited_setting s.sent_id ≡ false)
            × ((has_outbound s.sent_id previous ≡ false)
                × AreSendable (previous ++ (s ∷ [])) rest)))

pub encode_setting-ok :
    (s : Http3SettingValue)
    → s.sent_id < 2 ^ 62
    → s.sent_value < 2 ^ 62
    → encode_setting s ≡ ok (encoded s.sent_id, encoded s.sent_value)
unfolding encode_setting
encode_setting-ok s hi hv =
    rw (encode_varint-ok s.sent_id hi, encode_varint-ok s.sent_value hv, encode_setting)

pub length-wire_of :
    (s : Http3SettingValue)
    → s.sent_id < 2 ^ 62
    → s.sent_value < 2 ^ 62
    → length (wire_of s) ≡ size s.sent_id + size s.sent_value
length-wire_of s hi hv = omega (
  arith,
  length-append (short s.sent_id) (short s.sent_value),
  length-short s.sent_id hi,
  length-short s.sent_value hv,
)

add_setting-ok :
    (index n : ℕ) (s : Http3SettingValue)
    → s.sent_id < 2 ^ 62
    → s.sent_value < 2 ^ 62
    → n + length (wire_of s) < word
    → add_setting index n s ≡ ok (n + length (wire_of s))
unfolding add_setting
add_setting-ok index n s hi hv h =
    let e = encode_setting-ok s hi hv in let l = length-wire_of s hi hv in ground (arith, e, l)

pub validate_outbound-ok :
    (n : ℕ) (previous all : List Http3SettingValue)
    → AreSendable previous all
    → n + length (payload_of all) < word
    → validate_outbound n previous all ≡ ok (n + length (payload_of all))
unfolding validate_outbound payload_of
validate_outbound-ok n previous [] h k = ap ok (omega arith)
validate_outbound-ok n previous (s ∷ rest) (hi, (hv, (p, (q, h)))) k =
    let size = length-append (wire_of s) (payload_of rest) in
    rw (p, q, add_setting-ok (length previous) n s hi hv (omega arith))
      (validate_outbound-ok (n + length (wire_of s)) (previous ++ (s ∷ [])) rest h (omega arith)
        ∙ ap ok (omega arith))

-- One round of the loop, whose two copies stay inside the workspace.
write_settings_step :
    (offset : ℕ) (scratch : List ℕ) (s : Http3SettingValue) (rest : List Http3SettingValue)
    {id value : EncodedVarInt} {with_id with_value : List ℕ}
    → encode_setting s ≡ ok (id, value)
    → copy_from_slice scratch offset (offset + byte_len id.len) (encoded_bytes id) ≡ some with_id
    → copy_from_slice with_id
        (offset + byte_len id.len)
        (offset + byte_len id.len + byte_len value.len)
        (encoded_bytes value)
      ≡ some with_value
    → write_settings offset scratch (s ∷ rest)
      ≡ write_settings (offset + byte_len id.len + byte_len value.len) with_value rest
unfolding write_settings
write_settings_step offset scratch s rest e f g = rw (write_settings, e, f, g)

-- The two copies put the setting's bytes behind what stands in the workspace.
write_setting-ok :
    (done tail : List ℕ) (s : Http3SettingValue) (rest : List Http3SettingValue)
    → s.sent_id < 2 ^ 62
    → s.sent_value < 2 ^ 62
    → length (wire_of s) ≤ length tail
    → write_settings (length done) (done ++ tail) (s ∷ rest)
      ≡ write_settings
          (length (done ++ wire_of s))
          ((done ++ wire_of s) ++ drop (length (wire_of s)) tail)
          rest
write_setting-ok done tail s rest hi hv k =
    let i = short s.sent_id in
    let v = short s.sent_value in
    let li = length-short s.sent_id hi in
    let lv = length-short s.sent_value hv in
    let lw = length-append i v in
    let after = drop (length i) tail in
    let first : copy_from_slice (done ++ tail) (length done) (length done + size s.sent_id)
          (encoded_bytes (encoded s.sent_id))
        ≡ some ((done ++ i) ++ after) =
      rw (encoded_bytes-short s.sent_id hi, append_assoc done i after)
        (put done tail i (length done) (length done + size s.sent_id) refl (omega arith)
          (omega arith)) in
    let second : copy_from_slice ((done ++ i) ++ after) (length done + size s.sent_id)
          (length done + size s.sent_id + size s.sent_value) (encoded_bytes (encoded s.sent_value))
        ≡ some ((done ++ i) ++ (v ++ drop (length v) after)) =
      rw (encoded_bytes-short s.sent_value hv) (
        put (done ++ i) after v (length done + size s.sent_id)
          (length done + size s.sent_id + size s.sent_value) (omega (arith, length-append done i))
          (omega (arith, length-append done i)) (omega (arith, length-drop (length i) tail))) in
    let gone : drop (length v) after ≡ drop (length (wire_of s)) tail =
      drop-drop (length v) (length i) tail ∙ ap (λ (n : ℕ). drop n tail) (sym lw) in
    let flat : (done ++ i) ++ (v ++ drop (length v) after)
        ≡ (done ++ wire_of s) ++ drop (length (wire_of s)) tail =
      append_assoc done i (v ++ drop (length v) after)
      ∙ ap (◌++◌ done) (sym (append_assoc i v (drop (length v) after)))
      ∙ sym (append_assoc done (wire_of s) (drop (length v) after))
      ∙ ap (◌++◌ (done ++ wire_of s)) gone in
    let at : length done + size s.sent_id + size s.sent_value ≡ length (done ++ wire_of s) =
      omega (arith, length-append done (wire_of s)) in
    write_settings_step (length done) (done ++ tail) s rest (encode_setting-ok s hi hv) first second
    ∙ ap (λ (n : ℕ). write_settings n ((done ++ i) ++ (v ++ drop (length v) after)) rest) at
    ∙ ap (λ (x : List ℕ). write_settings (length (done ++ wire_of s)) x rest) flat

-- The loop puts the payload behind what stands in the workspace.
pub write_settings-ok :
    (done tail : List ℕ) (previous all : List Http3SettingValue)
    → AreSendable previous all
    → length (payload_of all) ≤ length tail
    → write_settings (length done) (done ++ tail) all
      ≡ some (done ++ (payload_of all ++ drop (length (payload_of all)) tail), ok tt)
unfolding write_settings payload_of
write_settings-ok done tail previous [] h k = refl
write_settings-ok done tail previous (s ∷ rest) (hi, (hv, (p, (q, h)))) k =
    let w = wire_of s in
    let more = payload_of rest in
    let behind = drop (length w) tail in
    let lp = length-append w more in
    let later =
      write_settings-ok (done ++ w) behind (previous ++ (s ∷ [])) rest h
        (omega (arith, length-drop (length w) tail)) in
    let gone : drop (length more) behind ≡ drop (length (w ++ more)) tail =
      drop-drop (length more) (length w) tail ∙ ap (λ (n : ℕ). drop n tail) (sym lp) in
    let flat : (done ++ w) ++ (more ++ drop (length more) behind)
        ≡ done ++ ((w ++ more) ++ drop (length (w ++ more)) tail) =
      append_assoc done w (more ++ drop (length more) behind)
      ∙ ap (◌++◌ done) (sym (append_assoc w more (drop (length more) behind)))
      ∙ ap (λ (x : List ℕ). done ++ ((w ++ more) ++ x)) gone in
    write_setting-ok done tail s rest hi hv (omega arith)
    ∙ later
    ∙ ap (λ (x : List ℕ). some (x, ok tt)) flat
