-- ===== src/Browser/Pool/Tokens.antt =====
-- The tokens of the slots.
use mathlib.Core.List.{Perm}
use mathlib.Core.List.Perm
use emm_go_script.Common.{
  Bool-cases, length, replicate, length-append, length-replicate, All, All-append, replicate-All,
  All-imp, Distinct, string_eq, nat_eq, ◌==◌, ==_iff, mem, ℕ, zero, suc, ◌+◌, ◌*◌, ◌≤◌, ◌<◌, ◌≡◌,
  subst, ◌≢◌, inl, inr, true, List, [], ◌∷◌, arith,
}
use emm_go_script.Browser.Pool.{slot_tokens, remove_slot}

slot_tokens-ge : (s i n : ℕ) → All (λ t. (i ≤ t) × (t < i + n)) (slot_tokens s i n)
unfolding slot_tokens
slot_tokens-ge s i zero = tt
slot_tokens-ge s i (suc n) =
    All-append (λ t. (i ≤ t) × (t < i + suc n)) (replicate s i) (slot_tokens s (i + 1) n)
      (replicate-All (λ t. (i ≤ t) × (t < i + suc n)) s i (omega arith, omega arith))
      (All-imp (λ t. (i + 1 ≤ t) × (t < i + 1 + n)) (λ t. (i ≤ t) × (t < i + suc n))
        (λ t h. (omega (arith, h.0), omega (arith, h.1))) (slot_tokens s (i + 1) n)
        (slot_tokens-ge s (i + 1) n))

pub slot_tokens-lt : (s n : ℕ) → All (λ t. t < n) (slot_tokens s 0 n)
slot_tokens-lt s n =
    All-imp (λ t. (0 ≤ t) × (t < 0 + n)) (λ t. t < n) (λ t h. omega (arith, h.1))
      (slot_tokens s 0 n) (slot_tokens-ge s 0 n)

pub length-slot_tokens : (s i n : ℕ) → length (slot_tokens s i n) ≡ n * s
unfolding slot_tokens
length-slot_tokens s i zero = omega arith
length-slot_tokens s i (suc n) = omega (
  arith,
  length-append (replicate s i) (slot_tokens s (i + 1) n),
  length-replicate s i,
  length-slot_tokens s (i + 1) n,
)

pub slot_tokens-Distinct : (i n : ℕ) → Distinct (slot_tokens 1 i n)
unfolding slot_tokens
slot_tokens-Distinct i zero = tt
slot_tokens-Distinct i (suc n) = (
  All-imp (λ t. (i + 1 ≤ t) × (t < i + 1 + n)) (λ t. i ≢ t)
      (λ t h e. absurd (omega (arith, h.0, e))) (slot_tokens 1 (i + 1) n)
      (slot_tokens-ge 1 (i + 1) n),
  slot_tokens-Distinct (i + 1) n,
)

-- Taking a held slot out.
pub remove_slot-perm :
    (slot : ℕ) (held : List ℕ) → mem slot held ≡ true → Perm (slot ∷ remove_slot slot held) held
unfolding remove_slot mem
remove_slot-perm slot [] h = cc
remove_slot-perm slot (s ∷ rest) h = elim (Bool-cases (s == slot)) [
  | inl t ↦
      let same : s ≡ slot = (==_iff s slot).0 t in
      rw (t, remove_slot) (subst (λ z. Perm (z ∷ rest) (s ∷ rest)) same (Perm.refl (s ∷ rest)))
  | inr f ↦
      rw (f, remove_slot)
        (Perm.trans (Perm.swap s slot (remove_slot slot rest))
          (Perm.cons s (remove_slot-perm slot rest (ground arith))))
]
