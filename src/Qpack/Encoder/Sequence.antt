-- ===== src/Qpack/Encoder/Sequence.antt =====
-- `apply_sequence` of src/qpack/state/encoder.rs on a state that represents an accounting.
use net_wire_rs.Common.{
  ℕ, zero, suc, ◌+◌, ◌≤◌, ◌<◌, ◌==◌, List, [], ◌∷◌, length, drop, some, ◌≡◌, refl, ap, ◌∙◌, ◌⊎◌,
  inl, inr, arith, length-drop, false, All,
}
use net_wire_rs.Common.Result.{Result, ok, err, Result-cases}
use net_wire_rs.Qpack.Instruction.{
  QpackDecoderInstruction, QpackDecoderInstructionsParseError, QpackDecoderInstructionIter, parse,
  as_bytes, next, iter,
}
use net_wire_rs.Qpack.Instruction.Sequence.{
  Reads, StopsWith, ended, read_next, parse-as_bytes, parse_instructions_total,
  parse_instructions-Reads,
}
use net_wire_rs.Qpack.Instruction.RoundTrip.{Message, value_of, sent, instructions_of, Reads-sent}
use net_wire_rs.Qpack.Integer.{integer_max}
use net_wire_rs.Qpack.Encoder.{
  QpackEncoderState, QpackDecoderInstructionApplyError, QpackDecoderInstructionsApplyError,
  cannot_parse, cannot_apply, apply, apply_items, apply_sequence,
}
use net_wire_rs.Qpack.Encoder.Spec.{Accounting, applied}
use net_wire_rs.Qpack.Encoder.Represents.{Represents}
use net_wire_rs.Qpack.Encoder.Refines.{apply-Agrees}

-- Instructions in turn, up to the first that is refused, with where each begins.
unfoldable pub applied_all :
    Accounting
    → ℕ
    → List QpackDecoderInstruction
    → ℕ
    → Accounting × Result QpackDecoderInstructionsApplyError (Unit {0})
applied_all a offset [] n = (a, ok tt)
applied_all a offset (i ∷ is) n = elim (applied a i n) [
  | ok a' ↦ applied_all a' (offset + length (as_bytes i)) is n
  | err e ↦ (a, err (cannot_apply offset e))
]

next-read :
    (bytes : List ℕ) (k : ℕ) (i : QpackDecoderInstruction)
    → parse bytes ≡ ok i
    → next (record { remaining = bytes; offset = k; failed = false }) ≡ (
      some (ok i),
      record {
        remaining = drop (length (as_bytes i)) bytes;
        offset = k + length (as_bytes i);
        failed = false;
      },
    )
unfolding next
next-read bytes k i q =
    let (some_byte, fits) = parse-as_bytes bytes i q in
    let filled : (length bytes == 0) ≡ false = ground arith in rw (filled, q)

module _ (fuel offset n : ℕ) (it it' : QpackDecoderInstructionIter) (i : QpackDecoderInstruction)
    (s s' : QpackEncoderState) (item : next it ≡ (some (ok i), it')) where
  step_applied :
      apply s i n ≡ some (s', ok tt)
      → apply_items (suc fuel) it offset s n
        ≡ apply_items fuel it' (offset + length (as_bytes i)) s' n
  unfolding apply_items
  step_applied run =
      rw (apply_items, item, run)
        (ap
          (λ (v : QpackDecoderInstructionIter).
            apply_items fuel v (offset + length (as_bytes i)) s' n)
          (ap (λ v. v.1) item))

  step_refused :
      (x : QpackDecoderInstructionApplyError)
      → apply s i n ≡ some (s', err x)
      → apply_items (suc fuel) it offset s n ≡ some (s', err (cannot_apply offset x))
  unfolding apply_items
  step_refused x run = rw (apply_items, item, run)

apply_items-Represents :
    (fuel k offset : ℕ) (bytes : List ℕ) (is : List QpackDecoderInstruction) (s : QpackEncoderState)
    (a : Accounting) (n : ℕ)
    → Reads bytes is
    → length bytes < fuel
    → Represents s a
    → (s' : QpackEncoderState) × (apply_items fuel
          (record { remaining = bytes; offset = k; failed = false })
          offset
          s
          n
        ≡ some (s', (applied_all a offset is n).1))
      × Represents s' (applied_all a offset is n).0
unfolding apply_items applied_all
apply_items-Represents zero k offset bytes is s a n r h rep = absurd (omega arith)
apply_items-Represents (suc fuel) k offset _ _ s a n ended h rep = (s, unfold next in refl, rep)
apply_items-Represents (suc fuel) k offset _ _ s a n (read_next bytes {i} {is} q r) h rep =
    let (some_byte, fits) = parse-as_bytes bytes i q in
    let item = next-read bytes k i q in
    let done = apply-Agrees s a i n rep in
    let size = length-drop (length (as_bytes i)) bytes in
    elim (Result-cases (applied a i n)) [
      | inl (a', e) ↦
          let (s1, run, rep1) = rw e at done in
          let (s2, rest, rep2) =
            apply_items-Represents fuel (k + length (as_bytes i)) (offset + length (as_bytes i))
              (drop (length (as_bytes i)) bytes) is s1 a' n r (omega arith) rep1 in
          rw (applied_all, e) (s2, step_applied fuel offset n _ _ i s s1 item run ∙ rest, rep2)
      | inr (x, e) ↦
          let run : apply s i n ≡ some (s, err x) = rw e at done in
          rw (applied_all, e) (s, step_refused fuel offset n _ _ i s s item x run, rep)
    ]

-- On a state that represents an accounting, `apply_sequence` of any bytes panics nowhere. Either
-- behind some instructions read in turn bytes are left, at the offset where these end, that are no
-- instruction: it reports this offset with the error there and leaves the state unchanged. Or the
-- bytes are a concatenation of instructions, and the result and the state are those of the
-- instructions applied in turn, up to the first refused.
pub apply_sequence-Represents :
    (s : QpackEncoderState) (a : Accounting) (bytes : List ℕ) (n : ℕ)
    → Represents s a
    → ((is : List QpackDecoderInstruction) × (e : QpackDecoderInstructionsParseError) × StopsWith
          e.error bytes is e.offset
        × (apply_sequence s bytes n ≡ some (s, err (cannot_parse e))))
      ⊎ ((is : List QpackDecoderInstruction) × Reads bytes is
          × ((s' : QpackEncoderState) × (apply_sequence s bytes n
                ≡ some (s', (applied_all a 0 is n).1))
              × Represents s' (applied_all a 0 is n).0))
unfolding apply_sequence iter
apply_sequence-Represents s a bytes n rep = elim (parse_instructions_total bytes) [
  | inl (is, whole, r) ↦
      let (s', run, rep') =
        apply_items-Represents (length bytes + 1) 0 0 bytes is s a n r (omega arith) rep in
      inr (is, r, (s', rw (whole, run), rep'))
  | inr (is, e, bad, stops, _) ↦ inl (is, e, stops, rw bad)
]

-- On a state that represents an accounting, `apply_sequence` of the canonical bytes of any
-- messages with 62-bit values returns the result of the messages applied in turn to the
-- accounting, up to the first refused, and a state that represents what they leave.
pub apply_sequence-sent :
    (s : QpackEncoderState) (a : Accounting) (ms : List Message) (n : ℕ)
    → Represents s a
    → All (λ m. value_of m ≤ integer_max) ms
    → (s' : QpackEncoderState) × (apply_sequence s (sent ms) n
        ≡ some (s', (applied_all a 0 (instructions_of ms) n).1))
      × Represents s' (applied_all a 0 (instructions_of ms) n).0
unfolding apply_sequence iter
apply_sequence-sent s a ms n rep h =
    let r = Reads-sent ms h in
    let whole = parse_instructions-Reads (sent ms) (instructions_of ms) r in
    let (s', run, rep') =
      apply_items-Represents (length (sent ms) + 1) 0 0 (sent ms) (instructions_of ms) s a n r
        (omega arith) rep in
    (s', rw (whole, run), rep')
