-- ===== src/Protocol/Guacamole/Cut.antt =====
-- An input that ends within an instruction (guacamole.go).
use emm_go_script.Common.{
  length, length-append, All, err, ℕ, zero, suc, ◌≤◌, ◌<◌, ◌≡◌, refl, sym, ap, ◌∙◌, subst, List, [],
  ◌∷◌, ◌++◌, arith,
}
use emm_go_script.Protocol.Guacamole.{
  ParseError, bad_length, decimal, element, span_digits, after_digits, parse_element, failed,
  parse_values, parse_from, parse_instructions,
}
use emm_go_script.Protocol.Guacamole.Runes.{Bytes, rune_count}
use emm_go_script.Protocol.Guacamole.RoundTrip.{IsValue, parse_element-element, parse_values-more}

-- The values of an instruction up to a comma.
pub open_values : List Bytes → Bytes
open_values [] = []
open_values (v ∷ vs) = element v ++ 44 ∷ open_values vs

open_values-parse :
    (fuel : ℕ) (before : List Bytes) (vs : List Bytes)
    → All IsValue vs
    → length vs < fuel
    → parse_values fuel before (open_values vs) ≡ failed bad_length
unfolding open_values
open_values-parse zero before vs h l = absurd (omega arith)
open_values-parse (suc fuel) before [] h l =
    unfold parse_values parse_element after_digits span_digits in refl
open_values-parse (suc fuel) before (v ∷ vs) h l =
    parse_values-more fuel before (element v ++ 44 ∷ open_values vs)
      (parse_element-element v 44 (open_values vs) h.0)
    ∙ open_values-parse fuel (before ++ v ∷ []) vs h.1 (omega arith)

length-element : (v : Bytes) → 1 ≤ length (element v)
unfolding element
length-element v = omega (arith, length-append (decimal (rune_count (length v) v)) (46 ∷ v))

length-open_values : (v : Bytes) (vs : List Bytes) → length (v ∷ vs) < length (open_values (v ∷ vs))
unfolding open_values
length-open_values v [] = omega (arith, length-append (element v) (44 ∷ []), length-element v)
length-open_values v (w ∷ vs) =
    omega (arith, length-append (element v) (44 ∷ open_values (w ∷ vs)), length-open_values w vs)

failed-round :
    (input : Bytes) (e : ParseError)
    → 1 ≤ length input
    → parse_values (length input) [] input ≡ failed e
    → parse_instructions input ≡ err e
unfolding parse_instructions parse_from
failed-round [] e h f = absurd (omega arith)
failed-round (c ∷ cs) e h f = rw (f, parse_from) refl

open_values-failed :
    (input : Bytes) (v : Bytes) (vs : List Bytes)
    → input ≡ open_values (v ∷ vs)
    → All IsValue (v ∷ vs)
    → parse_instructions input ≡ err bad_length
open_values-failed input v vs same h =
    let long : length (v ∷ vs) < length input =
      omega (arith, length-open_values v vs, ap length same) in
    failed-round input bad_length (omega arith) (
      subst (λ z. parse_values (length input) [] z ≡ failed bad_length) (sym same)
        (open_values-parse (length input) [] (v ∷ vs) h long))

-- An input that consists of the first values of one instruction, each whole, valid UTF-8 of at most 2 ^ 24 characters and with
-- the comma behind it, is refused as malformed, although it is the beginning of an instruction: no bytes are kept for the next
-- message.
pub parse_instructions-cut :
    (v : Bytes) (vs : List Bytes)
    → IsValue v
    → All IsValue vs
    → parse_instructions (open_values (v ∷ vs)) ≡ err bad_length
parse_instructions-cut v vs hv hs = open_values-failed (open_values (v ∷ vs)) v vs refl (hv, hs)
