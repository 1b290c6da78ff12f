-- ===== src/Protocol/Guacamole.antt =====
-- pam-loadtest/internal/protocol/guacamole.go: the instruction codec, on lists of bytes. A position in the input is the list of
-- the bytes from it on.
pub mod Runes
mod Decimal
pub mod Utf8
pub mod RoundTrip
pub mod Fuel
pub mod Cut
pub mod Reader
mod Tests
use emm_go_script.Common.{
  ltb, leb, if◌then◌else◌, length, Result, ok, err, string_eq, nat_eq, ◌==◌, ℕ, zero, suc, ◌+◌, ◌-◌,
  ◌*◌, ◌/◌, ◌%◌, Bool, ◌&&◌, none, some, List, [], ◌∷◌, ◌++◌,
}
use emm_go_script.Protocol.Guacamole.Runes.{Bytes, rune_count, skip_runes}

pub record Instruction : Type 0 where
  pub opcode : Bytes
  pub args : List Bytes

pub data ParseError : Type 0 where
  bad_length bad_element_delimiter empty_opcode bad_instruction_delimiter out_of_fuel : ParseError

abbrev pub max_element : ℕ
max_element = 16777216

-- `strconv.AppendInt` of a count, with fuel for its digits.
pub decimal_from : ℕ → ℕ → Bytes
decimal_from zero n = []
decimal_from (suc fuel) n =
    let front = decimal_from fuel (n / 10) in
    if ltb n 10 then (48 + n) ∷ [] else front ++ (48 + n % 10) ∷ []

unfoldable pub decimal : ℕ → Bytes
unfolding decimal_from
decimal n = decimal_from (suc n) n

pub element : Bytes → Bytes
unfolding decimal rune_count
element value = decimal (rune_count (length value) value) ++ 46 ∷ value

pub encode_values : List Bytes → Bytes
encode_values [] = []
encode_values (v ∷ []) = element v ++ 59 ∷ []
encode_values (v ∷ w ∷ vs) = element v ++ 44 ∷ encode_values (w ∷ vs)

unfoldable pub encode_instruction : Instruction → Bytes
unfolding encode_values element
encode_instruction i = encode_values (i.opcode ∷ i.args)

pub is_digit : ℕ → Bool
is_digit c = leb 48 c && leb c 57

-- The bytes up to `dot`, and those from it on.
pub span_digits : Bytes → Bytes × Bytes
span_digits [] = ([], [])
span_digits (c ∷ cs) =
    let later = span_digits cs in if is_digit c then (c ∷ later.0, later.1) else ([], c ∷ cs)

-- The number that digits stand for. `strconv.Atoi` fails only above `max_element`, where the length is refused anyway.
pub digits_value : ℕ → Bytes → ℕ
digits_value acc [] = acc
digits_value acc (c ∷ cs) = digits_value (acc * 10 + (c - 48)) cs

-- One round of the inner loop: an error, an input that ends too early, or a value with the separator and the rest.
pub data Element : Type 0 where
  refused : ParseError → Element
  incomplete : Element
  complete : Bytes → ℕ → Bytes → Element

pub after_value : Bytes → Bytes → Element
after_value value [] = incomplete
after_value value (separator ∷ rest) = complete value separator rest

pub parse_value : ℕ → Bytes → Element
unfolding after_value
parse_value n bytes = if ltb max_element n then refused bad_length else elim (skip_runes n bytes) [
  | none ↦ incomplete
  | some (value, rest) ↦ after_value value rest
]

pub after_digits : Bytes → Bytes → Element
unfolding parse_value digits_value
after_digits [] rest = refused bad_length
after_digits (d ∷ ds) [] = incomplete
after_digits (d ∷ ds) (c ∷ rest) =
    if c == 46 then parse_value (digits_value 0 (d ∷ ds)) rest else refused bad_element_delimiter

pub parse_element : Bytes → Element
unfolding after_digits span_digits
parse_element input = let spanned = span_digits input in after_digits spanned.0 spanned.1

pub data Parsed : Type 0 where
  failed : ParseError → Parsed
  partial : Parsed
  instruction : Instruction → Bytes → Parsed

-- The end of an instruction with the given values.
pub end_instruction : List Bytes → Bytes → Parsed
end_instruction [] rest = failed empty_opcode
end_instruction ([] ∷ args) rest = failed empty_opcode
end_instruction ((c ∷ cs) ∷ args) rest = instruction (record { opcode = c ∷ cs; args = args }) rest

-- The inner loop, with the values before. Each round takes a byte at least, so that the bytes are enough fuel.
pub parse_values : ℕ → List Bytes → Bytes → Parsed
parse_values zero values input = failed out_of_fuel
parse_values (suc fuel) values input = elim (parse_element input) [
  | refused e ↦ failed e
  | incomplete ↦ partial
  | complete value separator rest ↦
      let more = parse_values fuel (values ++ value ∷ []) rest in
      if separator == 59
      then end_instruction (values ++ value ∷ []) rest
      else if separator == 44
      then more
      else failed bad_instruction_delimiter
]

-- The outer loop: the instructions after `items`, and the bytes that are left for the next message.
pub parse_from : ℕ → List Instruction → Bytes → Result ParseError (List Instruction × Bytes)
parse_from fuel items [] = ok (items, [])
parse_from zero items (c ∷ cs) = err out_of_fuel
parse_from (suc fuel) items (c ∷ cs) = elim (parse_values (suc (length cs)) [] (c ∷ cs)) [
  | failed e ↦ err e
  | partial ↦ ok (items, c ∷ cs)
  | instruction i rest ↦ parse_from fuel (items ++ i ∷ []) rest
]

unfoldable pub parse_instructions : Bytes → Result ParseError (List Instruction × Bytes)
unfolding parse_from parse_values parse_element end_instruction is_digit
parse_instructions input = parse_from (length input) [] input
