-- ===== src/Protocol/Guacamole/RoundTrip.antt =====
-- `ParseInstructions` on what `EncodeInstruction` prints (guacamole.go).
use emm_go_script.Common.{
  ltb, length, length-append, All, ℕ, zero, suc, ◌≤◌, ◌<◌, ◌≡◌, refl, sym, ap, ◌∙◌, subst, ◌≢◌,
  false, List, [], ◌∷◌, ◌++◌, append_assoc, arith,
}
use emm_go_script.Protocol.Guacamole.Runes.{Bytes, rune_count}
use emm_go_script.Protocol.Guacamole.Fuel.{round-length, prepend, parse_from-any}
use emm_go_script.Protocol.Guacamole.Utf8.{Utf8, skip_runes-count}
use emm_go_script.Protocol.Guacamole.Decimal.{
  decimal-value, decimal-digits, decimal-cons, span_digits-append,
}
use emm_go_script.Protocol.Guacamole.{
  Instruction, max_element, decimal, element, encode_values, encode_instruction, is_digit,
  digits_value, complete, after_value, parse_value, after_digits, parse_element, instruction,
  end_instruction, parse_values, parse_from, parse_instructions,
}

-- A value that fits an element: valid UTF-8, of no more characters than the parser accepts.
abbrev pub IsValue : Bytes → Type 0
IsValue v = Utf8 v × (rune_count (length v) v ≤ max_element)

parse_value-count :
    (v : Bytes) (c : ℕ) (rest : Bytes)
    → IsValue v
    → parse_value (rune_count (length v) v) (v ++ c ∷ rest) ≡ complete v c rest
unfolding parse_value after_value
parse_value-count v c rest h =
    let small : ltb max_element (rune_count (length v) v) ≡ false = ground arith in
    rw (small, skip_runes-count (length v) (c ∷ rest) h.0 (omega arith)) refl

after_digits-cons :
    (ds rest : Bytes) (n : ℕ)
    → ((c : ℕ) × (cs : Bytes) × (ds ≡ c ∷ cs))
    → digits_value 0 ds ≡ n
    → after_digits ds (46 ∷ rest) ≡ parse_value n rest
unfolding after_digits
after_digits-cons ds rest n (c, cs, e) v =
    let v' : digits_value 0 (c ∷ cs) ≡ n = subst (λ z. digits_value 0 z ≡ n) e v in
    subst (λ z. after_digits z (46 ∷ rest) ≡ parse_value n rest) (sym e) (rw v' refl)

pub parse_element-element :
    (v : Bytes) (c : ℕ) (rest : Bytes)
    → IsValue v
    → parse_element (element v ++ c ∷ rest) ≡ complete v c rest
unfolding parse_element element is_digit
parse_element-element v c rest h =
    let n = rune_count (length v) v in
    rw
      (
        append_assoc (decimal n) (46 ∷ v) (c ∷ rest),
        span_digits-append (decimal n) 46 (v ++ c ∷ rest) (decimal-digits n) refl,
      )
      (after_digits-cons (decimal n) (v ++ c ∷ rest) n (decimal-cons n) (decimal-value n)
        ∙ parse_value-count v c rest h)

pub parse_values-last :
    (fuel : ℕ) (before : List Bytes) (input : Bytes) {v rest : Bytes}
    → parse_element input ≡ complete v 59 rest
    → parse_values (suc fuel) before input ≡ end_instruction (before ++ v ∷ []) rest
unfolding parse_values
parse_values-last fuel before input e = rw (e, parse_values) refl

pub parse_values-more :
    (fuel : ℕ) (before : List Bytes) (input : Bytes) {v rest : Bytes}
    → parse_element input ≡ complete v 44 rest
    → parse_values (suc fuel) before input ≡ parse_values fuel (before ++ v ∷ []) rest
unfolding parse_values
parse_values-more fuel before input e = rw (e, parse_values) refl

pub parse_element-before :
    (v : Bytes) (c : ℕ) (more rest : Bytes)
    → IsValue v
    → parse_element ((element v ++ c ∷ more) ++ rest) ≡ complete v c (more ++ rest)
parse_element-before v c more rest h =
    rw (append_assoc (element v) (c ∷ more) rest) (parse_element-element v c (more ++ rest) h)

encode_values-parse :
    (fuel : ℕ) (before : List Bytes) (v : Bytes) (vs : List Bytes) (rest : Bytes)
    → IsValue v
    → All IsValue vs
    → length vs < fuel
    → parse_values fuel before (encode_values (v ∷ vs) ++ rest)
      ≡ end_instruction (before ++ v ∷ vs) rest
unfolding encode_values
encode_values-parse zero before v vs rest hv hs h = absurd (omega arith)
encode_values-parse (suc fuel) before v [] rest hv hs h =
    parse_values-last fuel before ((element v ++ 59 ∷ []) ++ rest)
      (parse_element-before v 59 [] rest hv)
encode_values-parse (suc fuel) before v (w ∷ vs) rest hv hs h =
    parse_values-more fuel before ((element v ++ 44 ∷ encode_values (w ∷ vs)) ++ rest)
      (parse_element-before v 44 (encode_values (w ∷ vs)) rest hv)
    ∙ encode_values-parse fuel (before ++ v ∷ []) w vs rest hs.0 hs.1 (omega arith)
    ∙ ap (λ z. end_instruction z rest) (append_assoc before (v ∷ []) (w ∷ vs))

length-encode_values : (v : Bytes) (vs : List Bytes) → length vs < length (encode_values (v ∷ vs))
unfolding encode_values
length-encode_values v [] = omega (arith, length-append (element v) (59 ∷ []))
length-encode_values v (w ∷ vs) =
    omega
      (arith, length-append (element v) (44 ∷ encode_values (w ∷ vs)), length-encode_values w vs)

-- An instruction that can be sent: its values fit, and it has an opcode.
pub record IsInstruction (i : Instruction) : Type 0 where
  pub named : i.opcode ≢ []
  pub opcode_fits : IsValue i.opcode
  pub args_fit : All IsValue i.args

end_instruction-named :
    (opcode : Bytes) (args : List Bytes) (rest : Bytes)
    → opcode ≢ []
    → end_instruction (opcode ∷ args) rest
      ≡ instruction (record { opcode = opcode; args = args }) rest
unfolding end_instruction
end_instruction-named [] args rest h = absurd (h refl)
end_instruction-named (c ∷ cs) args rest h = refl

-- One round of the outer loop, where the inner one finds an instruction.
parse_instructions-round :
    (input : Bytes) (i : Instruction) (rest : Bytes)
    → 1 ≤ length input
    → parse_values (length input) [] input ≡ instruction i rest
    → parse_instructions input ≡ prepend (i ∷ []) (parse_instructions rest)
unfolding parse_instructions parse_from
parse_instructions-round [] i rest h e = absurd (omega arith)
parse_instructions-round (c ∷ cs) i rest h e =
    let shorter = round-length c cs e in
    rw (e, parse_from)
      (parse_from-any (length cs) (length rest) (i ∷ []) rest (omega arith) (omega arith))

-- An instruction with an opcode that is not empty, and whose opcode and arguments are valid UTF-8 of at most 2 ^ 24 characters
-- each, is parsed back when it is encoded, whatever bytes follow: they are parsed as if they stood alone.
pub parse_instructions-encode_instruction :
    (i : Instruction) (rest : Bytes)
    → IsInstruction i
    → parse_instructions (encode_instruction i ++ rest) ≡ prepend (i ∷ []) (parse_instructions rest)
unfolding encode_instruction
parse_instructions-encode_instruction i rest h =
    let whole = encode_values (i.opcode ∷ i.args) ++ rest in
    let long : length i.args < length whole = omega (
      arith,
      length-encode_values i.opcode i.args,
      length-append (encode_values (i.opcode ∷ i.args)) rest,
    ) in
    parse_instructions-round whole i rest (omega arith) (
      encode_values-parse (length whole) [] i.opcode i.args rest h.opcode_fits h.args_fit long
      ∙ end_instruction-named i.opcode i.args rest h.named)
