-- ===== src/Http3/Settings/Builder/Received.antt =====
-- src/http3/settings.rs: what the reader and the validation make of a payload that the builder wrote.
use net_wire_rs.Common.{
  ℕ, zero, suc, ◌-◌, ◌<◌, ◌≤◌, ◌^◌, List, [], ◌∷◌, ◌++◌, some, length, take, drop, ◌≡◌, refl, ap,
  subst, ◌∙◌, arith, append_assoc, length-append,
}
use net_wire_rs.Common.Result.{ok}
use net_wire_rs.Common.Slices.{take-length_eq, drop-length_eq}
use net_wire_rs.Quic.Varint.{canonical_len, byte_len}
use net_wire_rs.Quic.Varint.{parse as parse_varint}
use net_wire_rs.Quic.Varint.RoundTrip.{parse-encode}
use net_wire_rs.Http3.Frame.RoundTrip.{short, size, fits, length-short}
use net_wire_rs.Http3.Payload.Builder.RoundTrip.{integer}
use net_wire_rs.Http3.Settings.{
  Http3Setting, Http3PeerSettings, validate_remaining, items, parse_setting, record_setting,
  validate_loop, has_id, next_offset,
}
use net_wire_rs.Http3.Settings.Layout.{parse_setting-parsed, items_step}
use net_wire_rs.Http3.Settings.Validation.{AreAcceptable, with_values, with_values-record, value_of}
use net_wire_rs.Http3.Settings.Builder.{Http3SettingValue, has_outbound}
use net_wire_rs.Http3.Settings.Builder.Written.{wire_of, payload_of, AreSendable}

-- A setting as the iterator of the reader yields it, and all of them.
abbrev pub received : Http3SettingValue → Http3Setting
received s = record { bytes = wire_of s; id = integer s.sent_id; value = integer s.sent_value }

unfoldable pub all_received : List Http3SettingValue → List Http3Setting
all_received [] = []
all_received (s ∷ rest) = received s ∷ all_received rest

module _ (s : Http3SettingValue) (hi : s.sent_id < 2 ^ 62) (hv : s.sent_value < 2 ^ 62)
    (more bytes : List ℕ) (e : bytes ≡ wire_of s ++ more) where
  abbrev behind_id : List ℕ
  behind_id = drop (byte_len (canonical_len s.sent_id)) bytes

  flat : bytes ≡ short s.sent_id ++ (short s.sent_value ++ more)
  flat = e ∙ append_assoc (short s.sent_id) (short s.sent_value) more

  id_read : parse_varint bytes ≡ ok (integer s.sent_id)
  id_read = rw flat (
      parse-encode (canonical_len s.sent_id) s.sent_id (short s.sent_value ++ more)
        (fits s.sent_id hi))

  behind : behind_id ≡ short s.sent_value ++ more
  behind = rw flat (
      drop-length_eq (size s.sent_id) (short s.sent_id) (short s.sent_value ++ more)
        (length-short s.sent_id hi))

  value_read : parse_varint behind_id ≡ ok (integer s.sent_value)
  value_read =
      rw behind (parse-encode (canonical_len s.sent_value) s.sent_value more (fits s.sent_value hv))

  remaining : drop (byte_len (canonical_len s.sent_value)) behind_id ≡ more
  remaining =
      rw behind (
        drop-length_eq (size s.sent_value) (short s.sent_value) more (length-short s.sent_value hv))

  shorter : length more < length bytes
  shorter =
      let (_, _, less) =
        parse_setting-parsed bytes (integer s.sent_id) (integer s.sent_value) id_read value_read in
      rw (← remaining) less

  front : take (length bytes - length more) bytes ≡ wire_of s
  front =
      let size = length-append (wire_of s) more in
      rw e
        (take-length_eq (length (wire_of s ++ more) - length more) (wire_of s) more (omega arith))

  setting_read : parse_setting bytes ≡ some (received s, more)
  setting_read =
      let (step, _, _) =
        parse_setting-parsed bytes (integer s.sent_id) (integer s.sent_value) id_read value_read in
      step ∙ rw (remaining, front) refl

pub items-all_received :
    (rounds : ℕ) (bytes : List ℕ) (previous all : List Http3SettingValue)
    → AreSendable previous all
    → bytes ≡ payload_of all
    → length bytes ≤ rounds
    → items rounds bytes ≡ all_received all
unfolding payload_of all_received items
items-all_received zero bytes previous [] h e k = refl
items-all_received (suc rounds) bytes previous [] h e k =
    rw e (unfold parse_setting parse_varint in refl)
items-all_received zero bytes previous (s ∷ rest) (hi, (hv, (_, (_, h)))) e k =
    absurd (omega (arith, shorter s hi hv (payload_of rest) bytes e))
items-all_received (suc rounds) bytes previous (s ∷ rest) (hi, (hv, (_, (_, h)))) e k =
    items_step rounds bytes (setting_read s hi hv (payload_of rest) bytes e)
    ∙ ap (◌∷◌ (received s)) (
        items-all_received rounds (payload_of rest) (previous ++ (s ∷ [])) rest h refl
          (omega (arith, shorter s hi hv (payload_of rest) bytes e)))

pub validate_remaining-ok :
    (rounds : ℕ) (whole bytes : List ℕ) (previous all : List Http3SettingValue)
    (k : length bytes ≤ rounds)
    → AreSendable previous all
    → bytes ≡ payload_of all
    → validate_remaining rounds whole bytes k ≡ ok tt
unfolding payload_of validate_remaining
validate_remaining-ok rounds whole [] previous all k h e = refl
validate_remaining-ok zero whole (b ∷ more) previous all k h e = absurd (omega arith)
validate_remaining-ok (suc rounds) whole (b ∷ more) previous [] k h e =
    absurd (omega (arith, ap length e))
validate_remaining-ok (suc rounds) whole (b ∷ more) previous (s ∷ rest) k (hi, (hv, (_, (_, h))))
      e =
    let tail = payload_of rest in
    rw (id_read s hi hv tail (b ∷ more) e, value_read s hi hv tail (b ∷ more) e, validate_remaining)
      (validate_remaining-ok rounds whole
        (drop (byte_len (canonical_len s.sent_value))
          (drop (byte_len (canonical_len s.sent_id)) (b ∷ more)))
        (previous ++ (s ∷ [])) rest _ h (remaining s hi hv tail (b ∷ more) e))

all_received-append :
    (xs ys : List Http3SettingValue) → all_received (xs ++ ys) ≡ all_received xs ++ all_received ys
unfolding all_received
all_received-append [] ys = refl
all_received-append (x ∷ xs) ys = ap (◌∷◌ (received x)) (all_received-append xs ys)

has_id-all_received :
    (id : ℕ) (xs : List Http3SettingValue) → has_id id (all_received xs) ≡ has_outbound id xs
unfolding all_received has_id has_outbound
has_id-all_received id [] = refl
has_id-all_received id (x ∷ xs) = rw (has_id-all_received id xs)

-- What may be sent is acceptable where it arrives.
pub all_received-AreAcceptable :
    (previous all : List Http3SettingValue)
    → AreSendable previous all
    → AreAcceptable (all_received previous) (all_received all)
unfolding all_received
all_received-AreAcceptable previous [] h = tt
all_received-AreAcceptable previous (s ∷ rest) (hi, (hv, (p, (q, h)))) = (
  p,
  (
    has_id-all_received s.sent_id previous ∙ q,
    subst (λ (x : List Http3Setting). AreAcceptable x (all_received rest))
        (all_received-append previous (s ∷ []))
        (all_received-AreAcceptable (previous ++ (s ∷ [])) rest h),
  ),
)

-- The loop of the validation records the values of acceptable settings.
pub validate_loop-AreAcceptable :
    (peer : Http3PeerSettings) (offset : ℕ) (previous all : List Http3Setting)
    → AreAcceptable previous all
    → validate_loop peer offset previous all ≡ ok (with_values peer all)
unfolding validate_loop value_of
validate_loop-AreAcceptable peer offset previous [] a = refl
validate_loop-AreAcceptable peer offset previous (s ∷ rest) (p, (n, a)) =
    rw (p, n)
      (validate_loop-AreAcceptable (record_setting peer s.id.value s.value.value)
          (next_offset offset (length s.bytes)) (previous ++ (s ∷ [])) rest a
        ∙ ap ok (with_values-record peer previous rest s a))
