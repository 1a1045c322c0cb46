-- ===== src/Qpack/Instruction/Sequence.antt =====
-- The loop of QpackDecoderInstructions::parse in src/qpack/stream/decoder.rs on any input.
use net_wire_rs.Common.{ℕ, zero, suc, ◌+◌, ◌-◌, ◌≤◌, ◌<◌, ltb, arith}
use net_wire_rs.Common.{List, [], ◌∷◌, Option, some, length, drop, ◌≡◌, refl, ap, sym, ◌∙◌, ◌⊎◌}
use net_wire_rs.Common.{
  Bool-cases, inl, inr, lt→ltb, le→ltb, ltb→lt, ltb→le, drop-drop, drop_all, length-drop,
}
use net_wire_rs.Common.Result.{Result, ok, err, Result-cases}
use net_wire_rs.Qpack.Integer
use net_wire_rs.Qpack.Integer.{QpackInteger}
use net_wire_rs.Qpack.Integer.Same.{parse-bytes}
use net_wire_rs.Qpack.Instruction.{
  QpackDecoderInstruction, QpackDecoderInstructionParseError, QpackDecoderInstructionsParseError,
  parse, as_bytes, parse_instructions, parse_instructions_from,
}

-- `bytes` is the concatenation of what `parse` takes off its front, again and again.
pub data Reads : List ℕ → List QpackDecoderInstruction → Type 0 where
  ended : Reads [] []
  read_next :
      (bytes : List ℕ) {i : QpackDecoderInstruction} {is : List QpackDecoderInstruction}
      → parse bytes ≡ ok i
      → Reads (drop (length (as_bytes i)) bytes) is
      → Reads bytes (i ∷ is)

-- Behind the instructions that `parse` takes off the front of `bytes`, again and again, at the
-- offset where they end, bytes are left that it refuses with an error.
pub data StopsWith (error : QpackDecoderInstructionParseError)
    : List ℕ → List QpackDecoderInstruction → ℕ → Type 0 where
  stops_here :
      (bytes : List ℕ) → 0 < length bytes → parse bytes ≡ err error → StopsWith error bytes [] 0
  stops_behind :
      (bytes : List ℕ) {i : QpackDecoderInstruction} {is : List QpackDecoderInstruction} {n : ℕ}
      → parse bytes ≡ ok i
      → StopsWith error (drop (length (as_bytes i)) bytes) is n
      → StopsWith error bytes (i ∷ is) (length (as_bytes i) + n)

pub parse-as_bytes :
    (bytes : List ℕ) (i : QpackDecoderInstruction)
    → parse bytes ≡ ok i
    → (1 ≤ length (as_bytes i)) × (length (as_bytes i) ≤ length bytes)
unfolding parse as_bytes
parse-as_bytes [] i e = cc
parse-as_bytes (first ∷ rest) i e = elim (Result-cases (Integer.parse (first ∷ rest) 7)) [
  | inl (v, q) ↦ elim (Result-cases (Integer.parse (first ∷ rest) 6)) [
    | inl (w, q') ↦
        ground (arith, parse-bytes (first ∷ rest) 7 v q, parse-bytes (first ∷ rest) 6 w q')
    | inr (x, q') ↦ ground (arith, parse-bytes (first ∷ rest) 7 v q)
  ]
  | inr (x, q) ↦ elim (Result-cases (Integer.parse (first ∷ rest) 6)) [
    | inl (w, q') ↦ ground (arith, parse-bytes (first ∷ rest) 6 w q')
    | inr (y, q') ↦ ground arith
  ]
]

-- From an offset on, the loop accepts instructions up to the end, or stops with an error.
abbrev LoopOutcome :
    List ℕ → ℕ → Option (Result QpackDecoderInstructionsParseError (Unit {0})) → Type 0
LoopOutcome bytes offset r =
    ((is : List QpackDecoderInstruction) × (r ≡ some (ok tt)) × Reads (drop offset bytes) is)
    ⊎ ((is : List QpackDecoderInstruction) × (x : QpackDecoderInstructionParseError) × (n : ℕ) × (r
          ≡ some (err (record { offset = offset + n; error = x })))
        × StopsWith x (drop offset bytes) is n
        × (offset + n < length bytes))

parse_instructions_from_outcome :
    (fuel offset : ℕ) (bytes : List ℕ)
    → offset ≤ length bytes
    → length bytes - offset < fuel
    → LoopOutcome bytes offset (parse_instructions_from fuel offset bytes)
unfolding parse_instructions_from
parse_instructions_from_outcome zero offset bytes h lt = absurd (omega arith)
parse_instructions_from_outcome (suc fuel) offset bytes h lt =
    let room : length (drop offset bytes) ≡ length bytes - offset = length-drop offset bytes in
    elim (Bool-cases (ltb offset (length bytes))) [
      | inr all ↦
          inl ([], rw all, rw (drop_all offset bytes (ltb→le offset (length bytes) all)) ended)
      | inl more ↦
          let less = ltb→lt offset (length bytes) more in
          elim (Result-cases (parse (drop offset bytes))) [
            | inr (x, q) ↦ inr (
              [],
              x,
              0,
              rw (more, q)
                  (ap (λ (o : ℕ). some (err (record { offset = o; error = x }))) (omega arith)),
              stops_here (drop offset bytes) (omega arith) q,
              omega arith,
            )
            | inl (i, q) ↦
                let (some_byte, fits) = parse-as_bytes (drop offset bytes) i q in
                let n = length (as_bytes i) in
                let behind = drop-drop n offset bytes in
                elim (parse_instructions_from_outcome fuel (offset + n) bytes (omega arith)
                  (omega arith)) [
                    | inl (is, e, r) ↦
                        inl (i ∷ is, rw (more, q, e), read_next (drop offset bytes) q (rw behind r))
                    | inr (is, x, m, e, stops, lt') ↦ inr (
                      i ∷ is,
                      x,
                      n + m,
                      rw (more, q)
                          (e
                            ∙ ap (λ (o : ℕ). some (err (record { offset = o; error = x })))
                                (omega arith)),
                      stops_behind (drop offset bytes) q (rw behind stops),
                      omega arith,
                    )
                  ]
          ]
    ]

-- On any bytes the loop that validates a sequence of decoder instructions ends within the length
-- of the input: it accepts them and they are a concatenation of instructions, or behind some
-- instructions read in turn bytes are left that are no instruction, and it reports the offset
-- where these instructions end, which lies within the input, with the error there.
pub parse_instructions_total :
    (bytes : List ℕ)
    → ((is : List QpackDecoderInstruction) × (parse_instructions bytes ≡ some (ok tt))
        × Reads bytes is)
      ⊎ ((is : List QpackDecoderInstruction) × (e : QpackDecoderInstructionsParseError)
          × (parse_instructions bytes ≡ some (err e))
          × StopsWith e.error bytes is e.offset
          × (e.offset < length bytes))
unfolding parse_instructions
parse_instructions_total bytes =
    elim (parse_instructions_from_outcome (length bytes + 1) 0 bytes (omega arith) (omega arith)) [
      | inl h ↦ inl h
      | inr (is, x, n, e, stops, lt) ↦ inr (
        is,
        record { offset = n; error = x },
        e ∙ ap (λ (o : ℕ). some (err (record { offset = o; error = x }))) (omega arith),
        stops,
        omega arith,
      )
    ]

parse_instructions_from-Reads :
    (fuel offset : ℕ) (bytes rest : List ℕ) (is : List QpackDecoderInstruction)
    → Reads rest is
    → drop offset bytes ≡ rest
    → length rest < fuel
    → parse_instructions_from fuel offset bytes ≡ some (ok tt)
unfolding parse_instructions_from
parse_instructions_from-Reads zero offset bytes rest is r e h = absurd (omega arith)
parse_instructions_from-Reads (suc fuel) offset bytes _ _ ended e h =
    let none_left : length bytes - offset ≡ 0 = sym (length-drop offset bytes) ∙ ap length e in
    rw (le→ltb offset (length bytes) (omega arith))
parse_instructions_from-Reads (suc fuel) offset bytes _ _ (read_next rest {i} {is} q r) e h =
    let (some_byte, fits) = parse-as_bytes rest i q in
    let n = length (as_bytes i) in
    let size : length bytes - offset ≡ length rest = sym (length-drop offset bytes) ∙ ap length e in
    let here : parse (drop offset bytes) ≡ ok i = ap parse e ∙ q in
    let next' : drop (offset + n) bytes ≡ drop n rest =
      sym (drop-drop n offset bytes) ∙ ap (drop n) e in
    let later =
      parse_instructions_from-Reads fuel (offset + n) bytes (drop n rest) is r next'
        (omega (arith, length-drop n rest)) in
    rw (lt→ltb offset (length bytes) (omega arith), here, later)

-- A concatenation of instructions is accepted.
pub parse_instructions-Reads :
    (bytes : List ℕ) (is : List QpackDecoderInstruction)
    → Reads bytes is
    → parse_instructions bytes ≡ some (ok tt)
unfolding parse_instructions
parse_instructions-Reads bytes is r =
    parse_instructions_from-Reads (length bytes + 1) 0 bytes bytes is r refl (omega arith)
