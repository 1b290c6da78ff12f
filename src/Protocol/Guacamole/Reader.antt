-- ===== src/Protocol/Guacamole/Reader.antt =====
-- The goroutine of `RunGuacamole` that reads messages and answers them (guacamole.go). What the connection takes is an
-- argument: a write may fail.
use emm_go_script.Common.{
  if◌then◌else◌, length, All, Result, ok, err, guard, ◌>>=◌, ◌>>◌, string_eq, nat_eq, ◌==◌, ℕ, ◌≡◌,
  refl, ap, ◌∙◌, Bool, true, false, ◌&&◌, ◌||◌, List, [], ◌∷◌, ◌++◌,
}
use emm_go_script.Protocol.Guacamole.{
  Instruction, ParseError, decimal, encode_instruction, parse_instructions,
}
use emm_go_script.Protocol.Guacamole.Runes.{Bytes}
use emm_go_script.Protocol.Guacamole.RoundTrip.{
  IsInstruction, parse_instructions-encode_instruction,
}
use emm_go_script.Protocol.Guacamole.Fuel.{prepend}

-- The sizes of `GuacamoleOptions`.
pub record Display : Type 0 where
  pub width : ℕ
  pub height : ℕ
  pub dpi : ℕ

pub record Reader : Type 0 where
  pub remainder : Bytes
  pub sent : List Bytes
  pub size_sent : Bool
  pub ready : Bool

pub data ReadError : Type 0 where
  parse_failed : ParseError → ReadError
  write_failed : ReadError

abbrev pub new_reader : Reader
new_reader = record { remainder = []; sent = []; size_sent = false; ready = false }

abbrev pub to_instruction : Bytes → List Bytes → Instruction
to_instruction opcode args = record { opcode = opcode; args = args }

abbrev audio_text : Bytes
audio_text = 97 ∷ 117 ∷ 100 ∷ 105 ∷ 111 ∷ []

abbrev blob_text : Bytes
blob_text = 98 ∷ 108 ∷ 111 ∷ 98 ∷ []

abbrev pub sync_text : Bytes
sync_text = 115 ∷ 121 ∷ 110 ∷ 99 ∷ []

abbrev ack_text : Bytes
ack_text = 97 ∷ 99 ∷ 107 ∷ []

abbrev size_text : Bytes
size_text = 115 ∷ 105 ∷ 122 ∷ 101 ∷ []

abbrev ack_args : Bytes → List Bytes
ack_args stream = stream ∷ (79 ∷ 75 ∷ []) ∷ (48 ∷ []) ∷ []

same_bytes : Bytes → Bytes → Bool
same_bytes [] [] = true
same_bytes (x ∷ xs) (y ∷ ys) = x == y && same_bytes xs ys
same_bytes xs ys = false

module _ (accepts : List Bytes → Bytes → Bool) (display : Display) where
  unfoldable pub write : Bytes → Reader → Result ReadError Reader
  write body r =
      guard (accepts r.sent body) write_failed >> ok (record r { sent = r.sent ++ body ∷ [] })

  unfoldable pub send_size : Reader → Result ReadError Reader
  unfolding write decimal
  send_size r =
      if r.size_sent
      then ok r
      else write
          (encode_instruction (
            to_instruction size_text
              (decimal display.width ∷ decimal display.height ∷ decimal display.dpi ∷ [])))
          (record r { size_sent = true })

  unfoldable pub answer_sync : Bytes → Reader → Result ReadError Reader
  unfolding write send_size
  answer_sync time r = do
    echoed ← write (encode_instruction (to_instruction sync_text (time ∷ []))) r
    sized ← send_size echoed
    ok (record sized { ready = true })

  answer_args : Bytes → List Bytes → Reader → Result ReadError Reader
  unfolding answer_sync write same_bytes
  answer_args opcode [] r = ok r
  answer_args opcode (stream ∷ args) r =
      if same_bytes opcode audio_text || same_bytes opcode blob_text
      then write (encode_instruction (to_instruction ack_text (ack_args stream))) r
      else if same_bytes opcode sync_text && length args == 0
      then answer_sync stream r
      else ok r

  -- One round of the loop over the items of a message.
  unfoldable pub answer : Instruction → Reader → Result ReadError Reader
  unfolding answer_args
  answer item r = answer_args item.opcode item.args r

  unfoldable pub answer_all : List Instruction → Reader → Result ReadError Reader
  unfolding answer
  answer_all [] r = ok r
  answer_all (item ∷ items) r = answer item r >>= answer_all items

  answer_parsed : Reader → Result ParseError (List Instruction × Bytes) → Result ReadError Reader
  answer_parsed r (err e) = err (parse_failed e)
  answer_parsed r (ok (items, rest)) = answer_all items (record r { remainder = rest })

  -- One round of the goroutine, with the body of a message.
  unfoldable pub on_message : Bytes → Reader → Result ReadError Reader
  unfolding answer_parsed
  on_message body r = answer_parsed r (parse_instructions (r.remainder ++ body))

-- Several instructions in one message.
unfoldable pub encode_all : List Instruction → Bytes
encode_all [] = []
encode_all (i ∷ is) = encode_instruction i ++ encode_all is

parse_instructions-encode_all :
    (is : List Instruction)
    → All IsInstruction is
    → parse_instructions (encode_all is) ≡ ok (is, [])
unfolding encode_all prepend
parse_instructions-encode_all [] h = unfold parse_instructions in refl
parse_instructions-encode_all (i ∷ is) h =
    parse_instructions-encode_instruction i (encode_all is) h.0
    ∙ ap (prepend (i ∷ [])) (parse_instructions-encode_all is h.1)

-- Let instructions have opcodes that are not empty, and opcodes and arguments that are valid UTF-8 of at most 2 ^ 24 characters
-- each. A message that begins within their encoding (the bytes before were kept from the messages before) and ends with them is
-- answered instruction by instruction, in their order, and no bytes are kept.
pub on_message-encode_all :
    (accepts : List Bytes → Bytes → Bool) (display : Display) (body : Bytes) (is : List Instruction)
    (r : Reader)
    → All IsInstruction is
    → r.remainder ++ body ≡ encode_all is
    → on_message accepts display body r
      ≡ answer_all accepts display is (record r { remainder = [] })
unfolding on_message answer_parsed
on_message-encode_all accepts display body is r h e =
    ap (answer_parsed accepts display r)
      (ap parse_instructions e ∙ parse_instructions-encode_all is h)
