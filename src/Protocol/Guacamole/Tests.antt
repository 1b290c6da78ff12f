-- ===== src/Protocol/Guacamole/Tests.antt =====
-- A `sync` with a time, and a `blob` before it.
use emm_go_script.Common.{drop, ok, err, ℕ, ◌<◌, ◌≡◌, refl, ◌≢◌, true, false, [], ◌∷◌, ◌++◌, arith}
use emm_go_script.Protocol.Guacamole.Runes.{Bytes, rune_count}
use emm_go_script.Protocol.Guacamole.{
  Instruction, bad_length, out_of_fuel, decimal_from, encode_instruction, parse_instructions,
}
use emm_go_script.Protocol.Guacamole.RoundTrip.{
  IsValue, IsInstruction, parse_instructions-encode_instruction,
}
use emm_go_script.Protocol.Guacamole.Fuel.{prepend, parse_instructions-total}
use emm_go_script.Protocol.Guacamole.Cut.{open_values, parse_instructions-cut}
use emm_go_script.Protocol.Guacamole.Reader.{
  Display, write_failed, new_reader, to_instruction, answer_all, on_message, encode_all,
  on_message-encode_all,
}
use emm_go_script.Protocol.Guacamole.Utf8.{none_left, ascii, rune_size-ascii, rune_count-step}

abbrev sync_bytes : Bytes
sync_bytes = 115 ∷ 121 ∷ 110 ∷ 99 ∷ []

abbrev sync_five : Instruction
sync_five = record { opcode = sync_bytes; args = (53 ∷ []) ∷ [] }

abbrev blob_one : Instruction
blob_one = record { opcode = 98 ∷ 108 ∷ 111 ∷ 98 ∷ []; args = (49 ∷ []) ∷ (120 ∷ []) ∷ [] }

-- `4.sync,1.5;`
abbrev sync_five_text : Bytes
sync_five_text = 52 ∷ 46 ∷ 115 ∷ 121 ∷ 110 ∷ 99 ∷ 44 ∷ 49 ∷ 46 ∷ 53 ∷ 59 ∷ []

encode_instruction-sync_five : encode_instruction sync_five ≡ sync_five_text
unfolding encode_instruction decimal_from
encode_instruction-sync_five = refl

sync-IsValue : IsValue sync_bytes
unfolding rune_count
sync-IsValue = (
  ascii (omega arith) (ascii (omega arith) (ascii (omega arith) (ascii (omega arith) none_left))),
  omega arith,
)

byte-IsValue : (b : ℕ) → b < 128 → IsValue (b ∷ [])
unfolding rune_count
byte-IsValue b h = (
  ascii h none_left,
  rw (rune_count-step 0 b [] (rune_size-ascii b [] h), rune_count) (omega arith),
)

sync_five-IsInstruction : IsInstruction sync_five
sync_five-IsInstruction = record {
  opcode_fits = sync-IsValue;
  args_fit = (byte-IsValue 53 (omega arith), tt);
  named = λ e. cc;
}

parse_instructions-encode_instruction_example :
    parse_instructions (encode_instruction sync_five ++ 52 ∷ [])
    ≡ prepend (sync_five ∷ []) (parse_instructions (52 ∷ []))
parse_instructions-encode_instruction_example =
    parse_instructions-encode_instruction sync_five (52 ∷ []) sync_five-IsInstruction

parse_instructions-total_example : parse_instructions sync_five_text ≢ err out_of_fuel
parse_instructions-total_example = parse_instructions-total sync_five_text

parse_instructions-cut_example : parse_instructions (open_values (sync_bytes ∷ [])) ≡ err bad_length
parse_instructions-cut_example = parse_instructions-cut sync_bytes [] sync-IsValue tt

abbrev hd : Display
hd = record { width = 1920; height = 1080; dpi = 96 }

-- The first byte of the message was kept before.
on_message-encode_all_example :
    on_message
      (λ sent body. true)
      hd
      (drop 1 sync_five_text)
      (record new_reader { remainder = 52 ∷ [] })
    ≡ answer_all (λ sent body. true) hd (sync_five ∷ []) new_reader
on_message-encode_all_example =
    on_message-encode_all (λ sent body. true) hd (drop 1 sync_five_text) (sync_five ∷ [])
      (record new_reader { remainder = 52 ∷ [] }) (sync_five-IsInstruction, tt)
      (unfold encode_all encode_instruction decimal_from in refl)

-- The `sync` is echoed, and the size follows.
answer_all-sync_five :
    answer_all (λ sent body. true) hd (sync_five ∷ []) new_reader
    ≡ ok (record {
      remainder = [];
      sent =
          sync_five_text
          ∷ encode_instruction (
              to_instruction
                (115 ∷ 105 ∷ 122 ∷ 101 ∷ [])
                ((49 ∷ 57 ∷ 50 ∷ 48 ∷ []) ∷ (49 ∷ 48 ∷ 56 ∷ 48 ∷ []) ∷ (57 ∷ 54 ∷ []) ∷ []))
          ∷ [];
      size_sent = true;
      ready = true;
    })
unfolding answer_all encode_instruction decimal_from
answer_all-sync_five = refl

answer_all-blob_one :
    answer_all (λ sent body. false) hd (blob_one ∷ []) new_reader ≡ err write_failed
unfolding answer_all
answer_all-blob_one = refl
