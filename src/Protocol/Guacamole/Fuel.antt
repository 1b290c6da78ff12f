-- ===== src/Protocol/Guacamole/Fuel.antt =====
-- The loops of `ParseInstructions` (guacamole.go), each round of which takes bytes off the input.
use emm_go_script.Common.{
  ltb, leb, Bool-cases, Option-cases, length, drop, length-drop, Result, ok, err, err-injective,
  some-injective, string_eq, nat_eq, ◌==◌, ℕ, zero, suc, ◌+◌, ◌≤◌, ◌<◌, ◌≡◌, refl, sym, ap, ◌∙◌,
  subst, ◌≢◌, ◌⊎◌, inl, inr, ◌&&◌, Option, none, some, List, [], ◌∷◌, ◌++◌, append-nil,
  append_assoc, arith,
}
use emm_go_script.Protocol.Guacamole.Runes.{Bytes, rune_size, skip_runes}
use emm_go_script.Protocol.Guacamole.{
  Instruction, ParseError, out_of_fuel, max_element, is_digit, span_digits, digits_value, Element,
  refused, incomplete, complete, after_value, parse_value, after_digits, parse_element, Parsed,
  failed, partial, instruction, end_instruction, parse_values, parse_from, parse_instructions,
}

none≢some : {A : Type 0} {a : A} → ◌≢◌ {A = Option A} none (some a)
none≢some e = cc

refused≢complete :
    {x : ParseError} {v : Bytes} {s : ℕ} {rest : Bytes} → refused x ≢ complete v s rest
refused≢complete e = cc

incomplete≢complete : {v : Bytes} {s : ℕ} {rest : Bytes} → incomplete ≢ complete v s rest
incomplete≢complete e = cc

complete-rest :
    {v v' : Bytes} {s s' : ℕ} {rest rest' : Bytes}
    → complete v s rest ≡ complete v' s' rest'
    → rest ≡ rest'
complete-rest e = cc

skip_runes-length :
    (n : ℕ) (bytes : Bytes) {value rest : Bytes}
    → skip_runes n bytes ≡ some (value, rest)
    → length rest ≤ length bytes
unfolding skip_runes
skip_runes-length zero bytes e = omega (arith, ap (λ z. length z.1) (some-injective e))
skip_runes-length (suc n) [] e = cc
skip_runes-length (suc n) (b ∷ bytes) {value = value} {rest = rest} e =
    elim (Bool-cases (rune_size (b ∷ bytes) == 1 && leb 128 b)) [
      | inl t ↦ absurd (none≢some (rw (t, skip_runes) at e))
      | inr f ↦ elim (Option-cases (skip_runes n (drop (rune_size (b ∷ bytes)) (b ∷ bytes)))) [
        | inl g ↦ absurd (none≢some (rw (f, g, skip_runes) at e))
        | inr ((v, r), g) ↦
            let same = some-injective (rw (f, g, skip_runes) at e) in
            omega (
              arith,
              ap (λ z. length z.1) same,
              skip_runes-length n (drop (rune_size (b ∷ bytes)) (b ∷ bytes)) g,
              length-drop (rune_size (b ∷ bytes)) (b ∷ bytes),
            )
      ]
    ]

span_digits-length :
    (input : Bytes) → length (span_digits input).0 + length (span_digits input).1 ≡ length input
unfolding span_digits
span_digits-length [] = omega arith
span_digits-length (c ∷ cs) = elim (Bool-cases (is_digit c)) [
  | inl t ↦ rw (t, span_digits) (omega (arith, span_digits-length cs))
  | inr f ↦ rw (f, span_digits) (omega arith)
]

after_value-length :
    (value bytes : Bytes) {v : Bytes} {s : ℕ} {rest : Bytes}
    → after_value value bytes ≡ complete v s rest
    → length rest < length bytes
unfolding after_value
after_value-length value [] e = cc
after_value-length value (c ∷ bytes) {v} {s} {rest} e =
    let same : bytes ≡ rest = complete-rest e in omega (arith, ap length same)

parse_value-length :
    (n : ℕ) (bytes : Bytes) {v : Bytes} {s : ℕ} {rest : Bytes}
    → parse_value n bytes ≡ complete v s rest
    → length rest < length bytes
unfolding parse_value
parse_value-length n bytes e = elim (Bool-cases (ltb max_element n)) [
  | inl t ↦ absurd (refused≢complete (rw (t, parse_value) at e))
  | inr f ↦ elim (Option-cases (skip_runes n bytes)) [
    | inl g ↦ absurd (incomplete≢complete (rw (f, g, parse_value) at e))
    | inr ((value, r), g) ↦ omega (
      arith,
      skip_runes-length n bytes g,
      after_value-length value r (rw (f, g, parse_value) at e),
    )
  ]
]

after_digits-length :
    (ds bytes : Bytes) {v : Bytes} {s : ℕ} {rest : Bytes}
    → after_digits ds bytes ≡ complete v s rest
    → length rest + 3 ≤ length ds + length bytes
unfolding after_digits
after_digits-length [] bytes e = cc
after_digits-length (d ∷ ds) [] e = cc
after_digits-length (d ∷ ds) (c ∷ bytes) e = elim (Bool-cases (c == 46)) [
  | inl t ↦
      omega (arith, parse_value-length (digits_value 0 (d ∷ ds)) bytes (rw (t, after_digits) at e))
  | inr f ↦ absurd (refused≢complete (rw (f, after_digits) at e))
]

-- An element that is complete takes three bytes at least.
pub parse_element-length :
    (input : Bytes) {v : Bytes} {s : ℕ} {rest : Bytes}
    → parse_element input ≡ complete v s rest
    → length rest + 3 ≤ length input
unfolding parse_element
parse_element-length input e = omega (
  arith,
  span_digits-length input,
  after_digits-length (span_digits input).0 (span_digits input).1 e,
)

-- An element that is refused is so for a reason of its own.
Reasoned : Element → Type 0
Reasoned (refused e) = e ≢ out_of_fuel
Reasoned incomplete = Unit
Reasoned (complete v s rest) = Unit

parse_value-Reasoned : (n : ℕ) (bytes : Bytes) → Reasoned (parse_value n bytes)
unfolding parse_value Reasoned after_value
parse_value-Reasoned n bytes = elim (Bool-cases (ltb max_element n)) [
  | inl t ↦ rw (t, parse_value) (λ e. cc)
  | inr f ↦ elim (Option-cases (skip_runes n bytes)) [
    | inl g ↦ rw (f, g, parse_value) tt
    | inr ((value, r), g) ↦ rw (f, g, parse_value) (after_value-Reasoned value r)
  ]
]
  where
    after_value-Reasoned : (value r : Bytes) → Reasoned (after_value value r)
    after_value-Reasoned value [] = tt
    after_value-Reasoned value (c ∷ r) = tt

after_digits-Reasoned : (ds bytes : Bytes) → Reasoned (after_digits ds bytes)
unfolding after_digits Reasoned
after_digits-Reasoned [] bytes = λ e. cc
after_digits-Reasoned (d ∷ ds) [] = tt
after_digits-Reasoned (d ∷ ds) (c ∷ bytes) = elim (Bool-cases (c == 46)) [
  | inl t ↦ rw (t, after_digits) (parse_value-Reasoned (digits_value 0 (d ∷ ds)) bytes)
  | inr f ↦ rw (f, after_digits) (λ e. cc)
]

-- What the inner loop comes to on an input of `n` bytes.
pub Steps : ℕ → Parsed → Type 0
Steps n (failed e) = e ≢ out_of_fuel
Steps n partial = Unit
Steps n (instruction i rest) = length rest < n

end_instruction-Steps :
    (values : List Bytes) (rest : Bytes) (n : ℕ)
    → length rest < n
    → Steps n (end_instruction values rest)
unfolding Steps end_instruction
end_instruction-Steps [] rest n h = λ e. cc
end_instruction-Steps ([] ∷ args) rest n h = λ e. cc
end_instruction-Steps ((c ∷ cs) ∷ args) rest n h = h

Steps-le : (m n : ℕ) (p : Parsed) → m ≤ n → Steps m p → Steps n p
unfolding Steps
Steps-le m n (failed e) h s = s
Steps-le m n partial h s = tt
Steps-le m n (instruction i rest) h s = omega (arith, s)

Element-cases :
    (e : Element)
    → ((x : ParseError) × (e ≡ refused x))
      ⊎ (e ≡ incomplete)
      ⊎ ((v : Bytes) × (s : ℕ) × (rest : Bytes) × (e ≡ complete v s rest))
Element-cases (refused x) = inl (x, refl)
Element-cases incomplete = inr (inl refl)
Element-cases (complete v s rest) = inr (inr (v, s, rest, refl))

pub parse_values-Steps :
    (fuel : ℕ) (values : List Bytes) (input : Bytes)
    → 1 ≤ fuel
    → length input ≤ fuel
    → Steps (length input) (parse_values fuel values input)
unfolding parse_values Steps Reasoned
parse_values-Steps zero values input one h = absurd (omega arith)
parse_values-Steps (suc fuel) values input one h = elim (Element-cases (parse_element input)) [
  | inl (x, e) ↦
      rw (e, parse_values)
        (subst Reasoned e (
          unfold parse_element in
          after_digits-Reasoned (span_digits input).0 (span_digits input).1))
  | inr (inl e) ↦ rw (e, parse_values) tt
  | inr (inr (v, s, rest, e)) ↦
      let shorter = parse_element-length input e in
      elim (Bool-cases (s == 59)) [
        | inl t ↦
            rw (e, t, parse_values)
              (end_instruction-Steps (values ++ v ∷ []) rest (length input) (omega arith))
        | inr f ↦ elim (Bool-cases (s == 44)) [
          | inl t ↦
              rw (e, f, t, parse_values)
                (Steps-le (length rest) (length input) (parse_values fuel (values ++ v ∷ []) rest)
                  (omega arith)
                  (parse_values-Steps fuel (values ++ v ∷ []) rest (omega arith) (omega arith)))
          | inr g ↦ rw (e, f, g, parse_values) (λ e. cc)
        ]
      ]
]

pub Parsed-cases :
    (p : Parsed)
    → ((x : ParseError) × (p ≡ failed x))
      ⊎ (p ≡ partial)
      ⊎ ((i : Instruction) × (rest : Bytes) × (p ≡ instruction i rest))
Parsed-cases (failed x) = inl (x, refl)
Parsed-cases partial = inr (inl refl)
Parsed-cases (instruction i rest) = inr (inr (i, rest, refl))

-- The inner loop on an input that is not empty, as the outer loop calls it.
pub round_Steps :
    (c : ℕ) (cs : Bytes) → Steps (suc (length cs)) (parse_values (suc (length cs)) [] (c ∷ cs))
round_Steps c cs = parse_values-Steps (suc (length cs)) [] (c ∷ cs) (omega arith) (omega arith)

-- What an instruction leaves is shorter.
pub round-length :
    (c : ℕ) (cs : Bytes) {i : Instruction} {rest : Bytes}
    → parse_values (suc (length cs)) [] (c ∷ cs) ≡ instruction i rest
    → length rest < suc (length cs)
unfolding Steps
round-length c cs e = subst (Steps (suc (length cs))) e (round_Steps c cs)

-- Instructions before those of a result.
unfoldable pub prepend :
    List Instruction
    → Result ParseError (List Instruction × Bytes)
    → Result ParseError (List Instruction × Bytes)
prepend items (ok (more, rest)) = ok (items ++ more, rest)
prepend items (err e) = err e

prepend-append :
    (xs ys : List Instruction) (r : Result ParseError (List Instruction × Bytes))
    → prepend xs (prepend ys r) ≡ prepend (xs ++ ys) r
unfolding prepend
prepend-append xs ys (ok (more, rest)) = rw (append_assoc xs ys more) refl
prepend-append xs ys (err e) = refl

parse_from-fuel :
    (f g : ℕ) (items : List Instruction) (input : Bytes)
    → length input ≤ f
    → length input ≤ g
    → parse_from f items input ≡ parse_from g items input
unfolding parse_from
parse_from-fuel zero zero items input hf hg = refl
parse_from-fuel zero (suc g) items [] hf hg = refl
parse_from-fuel (suc f) zero items [] hf hg = refl
parse_from-fuel (suc f) (suc g) items [] hf hg = refl
parse_from-fuel zero (suc g) items (c ∷ cs) hf hg = absurd (omega arith)
parse_from-fuel (suc f) zero items (c ∷ cs) hf hg = absurd (omega arith)
parse_from-fuel (suc f) (suc g) items (c ∷ cs) hf hg =
    elim (Parsed-cases (parse_values (suc (length cs)) [] (c ∷ cs))) [
      | inl (x, e) ↦ rw (e, parse_from) refl
      | inr (inl e) ↦ rw (e, parse_from) refl
      | inr (inr (i, rest, e)) ↦
          let shorter = round-length c cs e in
          rw (e, parse_from)
            (parse_from-fuel f g (items ++ i ∷ []) rest (omega arith) (omega arith))
    ]

parse_from-items :
    (f : ℕ) (items : List Instruction) (input : Bytes)
    → parse_from f items input ≡ prepend items (parse_from f [] input)
unfolding parse_from prepend
parse_from-items zero items [] = rw (append-nil items) refl
parse_from-items (suc f) items [] = rw (append-nil items) refl
parse_from-items zero items (c ∷ cs) = refl
parse_from-items (suc f) items (c ∷ cs) =
    elim (Parsed-cases (parse_values (suc (length cs)) [] (c ∷ cs))) [
      | inl (x, e) ↦ rw (e, parse_from, prepend) refl
      | inr (inl e) ↦ rw (e, parse_from, prepend, append-nil items) refl
      | inr (inr (i, rest, e)) ↦
          rw (e, parse_from)
            (parse_from-items f (items ++ i ∷ []) rest
              ∙ sym (prepend-append items (i ∷ []) (parse_from f [] rest))
              ∙ ap (prepend items) (sym (parse_from-items f (i ∷ []) rest)))
    ]

-- The loop with any fuel that the input fits in, and any instructions before, gives those and then the same.
pub parse_from-any :
    (f g : ℕ) (items : List Instruction) (input : Bytes)
    → length input ≤ f
    → length input ≤ g
    → parse_from f items input ≡ prepend items (parse_from g [] input)
parse_from-any f g items input hf hg =
    parse_from-items f items input ∙ ap (prepend items) (parse_from-fuel f g [] input hf hg)

parse_from-total :
    (fuel : ℕ) (items : List Instruction) (input : Bytes)
    → length input ≤ fuel
    → parse_from fuel items input ≢ err out_of_fuel
unfolding parse_from
parse_from-total zero items [] h = λ e. cc
parse_from-total (suc fuel) items [] h = λ e. cc
parse_from-total zero items (c ∷ cs) h = absurd (omega arith)
parse_from-total (suc fuel) items (c ∷ cs) h =
    elim (Parsed-cases (parse_values (suc (length cs)) [] (c ∷ cs))) [
      | inl (x, e) ↦
          let own : x ≢ out_of_fuel =
            unfold Steps in subst (Steps (suc (length cs))) e (round_Steps c cs) in
          rw (e, parse_from) (λ z. own (err-injective z))
      | inr (inl e) ↦ rw (e, parse_from) (λ z. cc)
      | inr (inr (i, rest, e)) ↦
          let shorter = round-length c cs e in
          rw (e, parse_from) (parse_from-total fuel (items ++ i ∷ []) rest (omega arith))
    ]

-- The bytes of the input are enough fuel for the loops of the parser.
pub parse_instructions-total : (input : Bytes) → parse_instructions input ≢ err out_of_fuel
unfolding parse_instructions
parse_instructions-total input = parse_from-total (length input) [] input (omega arith)
