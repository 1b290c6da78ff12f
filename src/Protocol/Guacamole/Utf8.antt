-- ===== src/Protocol/Guacamole/Utf8.antt =====
-- Valid UTF-8, and the characters that `rune_count` and `skip_runes` find in it.
use emm_go_script.Common.{
  ltb, leb, length, take, drop, length-append, take-append, drop-append, string_eq, nat_eq, ◌==◌, ℕ,
  zero, suc, ◌≤◌, ◌<◌, ◌≡◌, refl, sym, ap, subst, true, false, ◌&&◌, some, [], ◌∷◌, ◌++◌,
  append_assoc, arith,
}
use emm_go_script.Protocol.Guacamole.Runes.{
  Bytes, trailing, second_low, second_high, has_trailing, rune_size, rune_count, skip_runes,
}

-- A sequence of characters: of one byte, or of a first byte and as many as it asks for, in their ranges.
pub data Utf8 : Bytes → Type 0 where
  none_left : Utf8 []
  ascii : {b : ℕ} {v : Bytes} → b < 128 → Utf8 v → Utf8 (b ∷ v)
  wide :
      {b : ℕ} {v w : Bytes} (t : Bytes)
      → 128 ≤ b
      → 1 ≤ trailing b
      → length t ≡ trailing b
      → has_trailing (trailing b) (second_low b) (second_high b) t ≡ true
      → Utf8 v
      → w ≡ t ++ v
      → Utf8 (b ∷ w)

has_trailing-append :
    (n low high : ℕ) (t v : Bytes)
    → has_trailing n low high t ≡ true
    → has_trailing n low high (t ++ v) ≡ true
unfolding has_trailing
has_trailing-append zero low high t v h = refl
has_trailing-append (suc n) low high [] v h = cc
has_trailing-append (suc n) low high (b ∷ t) v h = ground (arith, has_trailing-append n 128 191 t v)

pub rune_size-ascii : (b : ℕ) (v : Bytes) → b < 128 → rune_size (b ∷ v) ≡ 1
unfolding rune_size
rune_size-ascii b v h = ground arith

rune_size-wide :
    (b : ℕ) (t v : Bytes)
    → 128 ≤ b
    → has_trailing (trailing b) (second_low b) (second_high b) t ≡ true
    → rune_size (b ∷ t ++ v) ≡ suc (trailing b)
unfolding rune_size
rune_size-wide b t v h f =
    let wide_first : ltb b 128 ≡ false = ground arith in
    rw (wide_first, has_trailing-append (trailing b) (second_low b) (second_high b) t v f) refl

pub rune_count-step :
    (fuel b : ℕ) (bytes : Bytes) {size : ℕ}
    → rune_size (b ∷ bytes) ≡ size
    → rune_count (suc fuel) (b ∷ bytes) ≡ suc (rune_count fuel (drop size (b ∷ bytes)))
unfolding rune_count
rune_count-step fuel b bytes e = rw e refl

skip_runes-step :
    (n b : ℕ) (bytes : Bytes) {size : ℕ} {value rest : Bytes}
    → rune_size (b ∷ bytes) ≡ size
    → (size == 1 && leb 128 b) ≡ false
    → skip_runes n (drop size (b ∷ bytes)) ≡ some (value, rest)
    → skip_runes (suc n) (b ∷ bytes) ≡ some (take size (b ∷ bytes) ++ value, rest)
unfolding skip_runes
skip_runes-step n b bytes {value = value} {rest = rest} e f later =
    let f' : (rune_size (b ∷ bytes) == 1 && leb 128 b) ≡ false =
      subst (λ s. (s == 1 && leb 128 b) ≡ false) (sym e) f in
    let later' : skip_runes n (drop (rune_size (b ∷ bytes)) (b ∷ bytes)) ≡ some (value, rest) =
      subst (λ s. skip_runes n (drop s (b ∷ bytes)) ≡ some (value, rest)) (sym e) later in
    subst (λ s. skip_runes (suc n) (b ∷ bytes) ≡ some (take s (b ∷ bytes) ++ value, rest)) e
      (rw (f', later', skip_runes) refl)

skip_runes-none_left :
    (fuel : ℕ) (rest : Bytes) → skip_runes (rune_count fuel []) rest ≡ some ([], rest)
unfolding skip_runes rune_count
skip_runes-none_left zero rest = refl
skip_runes-none_left (suc fuel) rest = refl

-- The characters of valid UTF-8 are found again before any bytes.
pub skip_runes-count :
    (fuel : ℕ) {v : Bytes} (rest : Bytes)
    → Utf8 v
    → length v ≤ fuel
    → skip_runes (rune_count fuel v) (v ++ rest) ≡ some (v, rest)
skip_runes-count fuel rest none_left h = skip_runes-none_left fuel rest
skip_runes-count zero rest (ascii small u) h = absurd (omega arith)
skip_runes-count zero rest (wide t large some_trailing len ranges u e) h = absurd (omega arith)
skip_runes-count (suc fuel) rest (ascii {b} {v} small u) h =
    rw (rune_count-step fuel b v (rune_size-ascii b v small)) (
      skip_runes-step (rune_count fuel v) b (v ++ rest) (rune_size-ascii b (v ++ rest) small)
        (ground arith) (skip_runes-count fuel rest u (omega arith)))
skip_runes-count (suc fuel) rest (wide {b} {v} {w} t large some_trailing len ranges u e) h =
    subst (λ z. skip_runes (rune_count (suc fuel) (b ∷ z)) (b ∷ z ++ rest) ≡ some (b ∷ z, rest))
      (sym e)
      (rw
        (
          rune_count-step fuel b (t ++ v) (rune_size-wide b t v large ranges),
          drop-append t v (trailing b) len,
          append_assoc t v rest,
        )
        (subst
          (λ z.
            skip_runes (suc (rune_count fuel v)) (b ∷ (t ++ (v ++ rest)))
            ≡ some (b ∷ (z ++ v), rest))
          (take-append t (v ++ rest) (trailing b) len)
          (skip_runes-step (rune_count fuel v) b (t ++ (v ++ rest)) {size = suc (trailing b)}
            (rune_size-wide b t (v ++ rest) large ranges) (ground arith)
            (subst (λ z. skip_runes (rune_count fuel v) z ≡ some (v, rest))
              (sym (drop-append t (v ++ rest) (trailing b) len))
              (skip_runes-count fuel rest u (omega (arith, ap length e, length-append t v)))))))
