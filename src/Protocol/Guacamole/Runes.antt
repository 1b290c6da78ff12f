-- ===== src/Protocol/Guacamole/Runes.antt =====
-- `utf8.DecodeRune` and `utf8.RuneCountInString`, on bytes, and `runeByteEnd` of guacamole.go.
use emm_go_script.Common.{
  ltb, leb, if◌then◌else◌, take, drop, string_eq, nat_eq, ◌==◌, ℕ, zero, suc, Bool, true, false,
  ◌&&◌, Option, none, some, List, [], ◌∷◌, ◌++◌,
}

abbrev pub Bytes : Type 0
Bytes = List ℕ

-- How many bytes follow the first byte of a character: none after a byte that begins none.
unfoldable pub trailing : ℕ → ℕ
trailing b =
    if leb 194 b && leb b 223
    then 1
    else if leb 224 b && leb b 239
    then 2
    else if leb 240 b && leb b 244
    then 3
    else 0

-- The bounds of the second byte.
unfoldable pub second_low : ℕ → ℕ
second_low b = if b == 224 then 160 else if b == 240 then 144 else 128

unfoldable pub second_high : ℕ → ℕ
second_high b = if b == 237 then 159 else if b == 244 then 143 else 191

unfoldable pub has_trailing : ℕ → ℕ → ℕ → Bytes → Bool
has_trailing zero low high bytes = true
has_trailing (suc n) low high [] = false
has_trailing (suc n) low high (b ∷ bytes) =
    (leb low b && leb b high) && has_trailing n 128 191 bytes

-- The size that `utf8.DecodeRune` gives: 1 for a byte that is no character.
unfoldable pub rune_size : Bytes → ℕ
unfolding trailing second_low second_high has_trailing
rune_size [] = 0
rune_size (b ∷ bytes) =
    if ltb b 128
    then 1
    else if has_trailing (trailing b) (second_low b) (second_high b) bytes
    then suc (trailing b)
    else 1

-- `utf8.RuneCountInString`, with a fuel of one for each byte.
unfoldable pub rune_count : ℕ → Bytes → ℕ
unfolding rune_size
rune_count fuel [] = 0
rune_count zero (b ∷ bytes) = 0
rune_count (suc fuel) (b ∷ bytes) = suc (rune_count fuel (drop (rune_size (b ∷ bytes)) (b ∷ bytes)))

-- `runeByteEnd`: the bytes of the next characters, and those after them.
unfoldable pub skip_runes : ℕ → Bytes → Option (Bytes × Bytes)
unfolding rune_size
skip_runes zero bytes = some ([], bytes)
skip_runes (suc n) [] = none
skip_runes (suc n) (b ∷ bytes) =
    let size = rune_size (b ∷ bytes) in
    let later = skip_runes n (drop size (b ∷ bytes)) in
    if size == 1 && leb 128 b then none else elim later [
      | none ↦ none
      | some (value, rest) ↦ some (take size (b ∷ bytes) ++ value, rest)
    ]
