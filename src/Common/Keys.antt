-- ===== src/Common/Keys.antt =====
-- Keys that the source compares by `==`, sets of them, and maps as association lists. A Go map is
-- the list of its entries in the order in which a `range` visits them; the first entry of a key counts.
use Prim.Native.Nat.{ℕ}
use Prim.Native.String.{String}
use Prim.Native.Char.{code}
use text.Mathlib.Text.{◌==◌ as str_eq}
use text.Mathlib.TextEquality.{eq_iff}
use mathlib.Core.Path.{◌≡◌, refl}
use mathlib.Core.Logic.{◌↔◌, ◌≢◌, ◌⊎◌, inl, inr}
use mathlib.Core.Bool.{Bool, true, false, ◌||◌}
use mathlib.Core.List.{List, [], ◌∷◌}
use mathlib.Core.Option.{Option, none, some}
use native.Mathlib.Omega.{arith}
use emm_go_script.Common.Tests.{nat_eq?, if◌then◌else◌, nat_eq?_iff, Bool-cases}
use emm_go_script.Common.Lists.{All, Distinct}

pub record Eq {κ} (K : Type κ) : Type κ where
  pub equal : K → K → Bool
  pub equal_iff : (j k : K) → (equal j k ≡ true) ↔ (j ≡ k)

instance abbrev pub string_eq : Eq String
string_eq = record { equal = str_eq; equal_iff = eq_iff }

instance abbrev pub nat_eq : Eq ℕ
nat_eq = record { equal = nat_eq?; equal_iff = nat_eq?_iff }

infix 50 ◌==◌
abbrev pub ◌==◌ {κ} : {K : Type κ} ⦃same : Eq K⦄ → K → K → Bool
◌==◌ ⦃same⦄ = same.equal

pub ==_iff {ℓ} : {A : Type ℓ} ⦃e : Eq A⦄ (a b : A) → ((a == b) ≡ true) ↔ (a ≡ b)
==_iff ⦃e⦄ a b = e.equal_iff a b

module _ {ℓ} {A : Type ℓ} ⦃e : Eq A⦄ where
  unfoldable pub mem : A → List A → Bool
  mem a [] = false
  mem a (x ∷ xs) = a == x || mem a xs

  -- A negative answer means that the key differs from each.
  pub mem-eq-false : (a : A) (xs : List A) → mem a xs ≡ false → All (λ x. a ≢ x) xs
  unfolding mem
  mem-eq-false a [] h = tt
  mem-eq-false a (x ∷ xs) h =
      ((λ p. ground (arith, e.equal_iff a x)), mem-eq-false a xs (ground arith))

  unfoldable pub lookup {κ} : {V : Type κ} → A → List (A × V) → Option V
  lookup k [] = none
  lookup k ((j, v) ∷ m) = if j == k then some v else lookup k m

  pub lookup-cons_self {κ} :
      {V : Type κ} (k : A) (v : V) (m : List (A × V)) → lookup k ((k, v) ∷ m) ≡ some v
  unfolding lookup
  lookup-cons_self k v m = rw ((e.equal_iff k k).1 refl)

  -- The keys that a loop meets, where `seen` are those before: none is repeated.
  abbrev pub Fresh : List A → List A → Type ℓ
  Fresh seen xs = All (λ x. mem x seen ≡ false) xs × Distinct xs

  fresh_tail :
      (x : A) (seen xs : List A)
      → All (λ y. mem y (x ∷ seen) ≡ false) xs
      → All (λ y. mem y seen ≡ false) xs × All (λ y. x ≢ y) xs
  unfolding mem
  fresh_tail x seen [] h = (tt, tt)
  fresh_tail x seen (y ∷ ys) h =
      let (a, b) = fresh_tail x seen ys h.1 in
      ((ground arith, a), ((λ p. ground (arith, e.equal_iff y x)), b))

  -- One round of such a loop.
  pub Fresh-cons :
      (x : A) (seen xs : List A) → mem x seen ≡ false → Fresh (x ∷ seen) xs → Fresh seen (x ∷ xs)
  Fresh-cons x seen xs h f = let (a, b) = fresh_tail x seen xs f.0 in ((h, a), (b, f.1))

-- The code points of a text: its bytes, if it is ASCII. `String` has its own `[]` and `∷`.
abbrev pub codes : String → List ℕ
codes String.[] = []
codes (String.◌∷◌ c s) = code c ∷ codes s

pub string_cases : (a b : String) → (a ≡ b) ⊎ (a ≢ b)
string_cases a b = elim (Bool-cases (str_eq a b)) [
  | inl t ↦ inl ((eq_iff a b).0 t)
  | inr t ↦ inr (λ e. ground (arith, eq_iff a b))
]
