-- ===== src/Protocol/Guacamole/Decimal.antt =====
-- The decimal lengths of the elements: what `parse_element` reads of what `decimal` prints.
use emm_go_script.Protocol.Guacamole.Runes.{Bytes}
use emm_go_script.Common.{
  ltb, Bool-cases, All, All-append, ℕ, zero, suc, ◌+◌, ◌-◌, ◌*◌, ◌/◌, ◌%◌, ◌≤◌, ◌<◌, ◌≡◌, refl, inl,
  inr, true, false, [], ◌∷◌, ◌++◌, arith,
}
use emm_go_script.Protocol.Guacamole.{decimal_from, decimal, is_digit, span_digits, digits_value}

digits_value-append :
    (acc : ℕ) (xs : Bytes) (c : ℕ)
    → digits_value acc (xs ++ c ∷ []) ≡ digits_value acc xs * 10 + (c - 48)
unfolding digits_value
digits_value-append acc [] c = refl
digits_value-append acc (x ∷ xs) c = digits_value-append (acc * 10 + (x - 48)) xs c

decimal_from-value : (fuel n : ℕ) → n < fuel → digits_value 0 (decimal_from fuel n) ≡ n
unfolding decimal_from
decimal_from-value zero n h = absurd (omega arith)
decimal_from-value (suc fuel) n h = elim (Bool-cases (ltb n 10)) [
  | inl t ↦ rw (t, decimal_from) (unfold digits_value in omega arith)
  | inr f ↦
      let big : 10 ≤ n = ground arith in
      rw (f, decimal_from, digits_value-append 0 (decimal_from fuel (n / 10)) (48 + n % 10))
        (omega (arith, decimal_from-value fuel (n / 10) (omega arith)))
]

decimal_from-digits : (fuel n : ℕ) → All (λ c. is_digit c ≡ true) (decimal_from fuel n)
unfolding decimal_from is_digit
decimal_from-digits zero n = tt
decimal_from-digits (suc fuel) n = elim (Bool-cases (ltb n 10)) [
  | inl t ↦ rw (t, decimal_from) (ground arith, tt)
  | inr f ↦
      rw (f, decimal_from)
        (All-append (λ c. is_digit c ≡ true) (decimal_from fuel (n / 10)) ((48 + n % 10) ∷ [])
          (decimal_from-digits fuel (n / 10)) (ground arith, tt))
]

-- The bytes of a number: its digits, which are read back.
pub decimal-value : (n : ℕ) → digits_value 0 (decimal n) ≡ n
unfolding decimal
decimal-value n = decimal_from-value (suc n) n (omega arith)

pub decimal-digits : (n : ℕ) → All (λ c. is_digit c ≡ true) (decimal n)
unfolding decimal
decimal-digits n = decimal_from-digits (suc n) n

decimal_from-cons : (fuel n : ℕ) → (c : ℕ) × (cs : Bytes) × (decimal_from (suc fuel) n ≡ c ∷ cs)
unfolding decimal_from
decimal_from-cons fuel n = elim (Bool-cases (ltb n 10)) [
  | inl t ↦ (48 + n, [], rw (t, decimal_from) refl)
  | inr f ↦ snoc_cons (decimal_from fuel (n / 10)) (48 + n % 10) (rw (f, decimal_from) refl)
]
  where
    snoc_cons :
        (xs : Bytes) (x : ℕ) {ys : Bytes}
        → ys ≡ xs ++ x ∷ []
        → (c : ℕ) × (cs : Bytes) × (ys ≡ c ∷ cs)
    snoc_cons [] x e = (x, [], e)
    snoc_cons (y ∷ xs) x e = (y, xs ++ x ∷ [], e)

pub decimal-cons : (n : ℕ) → (c : ℕ) × (cs : Bytes) × (decimal n ≡ c ∷ cs)
unfolding decimal
decimal-cons n = decimal_from-cons n n

pub span_digits-append :
    (ds : Bytes) (c : ℕ) (rest : Bytes)
    → All (λ d. is_digit d ≡ true) ds
    → is_digit c ≡ false
    → span_digits (ds ++ c ∷ rest) ≡ (ds, c ∷ rest)
unfolding span_digits
span_digits-append [] c rest h f = rw f refl
span_digits-append (d ∷ ds) c rest h f = rw (h.0, span_digits-append ds c rest h.1 f) refl
