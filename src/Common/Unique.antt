-- ===== src/Common/Unique.antt =====
-- Lists in which nothing stands twice: reading at an index, permutations, and the swap of two elements.
use mathlib.Core.List.{Perm}
use mathlib.Core.List.Perm
use mathlib.Core.List
use mathlib.Core.Nat as CoreNat
use mathlib.Core.List.{Mem, Nodup, Pairwise, mem-cons_self, mem-cons_of_mem}
use mathlib.Core.List.{Memᴰ}
use mathlib.Core.Logic.{∥∥₁_elim}
use mathlib.Core.HLevel.{¬_prop}
use mathlib.Core.Path.{sym, refl, ap, ◌≡◌, ◌∙◌, subst}
use mathlib.Core.Logic.{◌≢◌, inl, inr}
use mathlib.Core.Option.{none, some}
use mathlib.Core.List.{List, [], ◌∷◌, map}
use Prim.Native.Nat.{ℕ, zero, suc}
use native.Mathlib.Omega.{arith}
use emm_go_script.Common.Tests.{Option-cases}
use emm_go_script.Common.Lists.{length, get_elem?, set, All, All-get_elem?, All-set, Distinct}

-- The library's lengths, as native numbers.
to_native : CoreNat.ℕ → ℕ
to_native CoreNat.zero = 0
to_native (CoreNat.suc n) = suc (to_native n)

module _ {ℓ} {A : Type ℓ} where
  differs : (x : A) (xs : List A) → All (λ y. x ≢ y) xs → {z : A} → Memᴰ z xs → x ≢ z
  differs x [] h m = elim m [ ]
  differs x (y ∷ ys) h (Memᴰ.head e) = λ p. h.0 (p ∙ e)
  differs x (y ∷ ys) h (Memᴰ.tail m) = differs x ys h.1 m

  Distinct-Nodup : (xs : List A) → Distinct xs → Nodup xs
  Distinct-Nodup [] h = Pairwise.nil
  Distinct-Nodup (x ∷ xs) h =
      Pairwise.cons (λ z m. ∥∥₁_elim m ¬_prop (λ d. differs x xs h.0 d)) (Distinct-Nodup xs h.1)

  all_differ : (x : A) (xs : List A) → ((z : A) → Mem z xs → x ≢ z) → All (λ y. x ≢ y) xs
  all_differ x [] f = tt
  all_differ x (y ∷ ys) f = (f y mem-cons_self, all_differ x ys (λ z m. f z (mem-cons_of_mem y m)))

  Nodup-Distinct : (xs : List A) → Nodup xs → Distinct xs
  Nodup-Distinct [] h = tt
  Nodup-Distinct (x ∷ xs) (Pairwise.cons f h) = (all_differ x xs f, Nodup-Distinct xs h)

  pub Distinct-perm : {xs ys : List A} → Perm xs ys → Distinct ys → Distinct xs
  Distinct-perm {xs} {ys} p h = Nodup-Distinct xs (Perm.nodup (Perm.symm p) (Distinct-Nodup ys h))

  -- A value stands at one index only.
  pub Distinct-get_elem? :
      (xs : List A) (i j : ℕ) {a : A}
      → Distinct xs
      → get_elem? xs i ≡ some a
      → get_elem? xs j ≡ some a
      → i ≡ j
  Distinct-get_elem? [] i j h p q = absurd (ground arith)
  Distinct-get_elem? (x ∷ xs) zero zero h p q = refl
  Distinct-get_elem? (x ∷ xs) zero (suc j) {a} h p q =
      absurd (All-get_elem? (λ y. x ≢ y) xs j h.0 q (ground arith))
  Distinct-get_elem? (x ∷ xs) (suc i) zero {a} h p q =
      absurd (All-get_elem? (λ y. x ≢ y) xs i h.0 p (ground arith))
  Distinct-get_elem? (x ∷ xs) (suc i) (suc j) h p q = ap suc (Distinct-get_elem? xs i j h.1 p q)

  pub get_elem?-map {κ} :
      {B : Type κ} (f : A → B) (xs : List A) (i : ℕ) {a : A}
      → get_elem? xs i ≡ some a
      → get_elem? (map f xs) i ≡ some (f a)
  get_elem?-map f [] i e = absurd (ground arith)
  get_elem?-map f (x ∷ xs) zero {a} e = ap some (ap f (ground arith))
  get_elem?-map f (x ∷ xs) (suc i) e = get_elem?-map f xs i e

  -- `xs[i], xs[j] = xs[j], xs[i]`. Out of range, where the source would panic, nothing changes.
  unfoldable pub swap_at : ℕ → ℕ → List A → List A
  swap_at i j xs = elim (get_elem? xs i) [
    | none ↦ xs
    | some a ↦ elim (get_elem? xs j) [ none ↦ xs | some b ↦ set (set xs i b) j a ]
  ]

  set-perm :
      (xs : List A) (i : ℕ) (y : A) {x : A}
      → get_elem? xs i ≡ some x
      → Perm (x ∷ set xs i y) (y ∷ xs)
  set-perm [] i y e = absurd (ground arith)
  set-perm (z ∷ zs) zero y {x} e =
      let z_is_x : z ≡ x = ground arith in
      subst (λ w. Perm (w ∷ y ∷ zs) (y ∷ z ∷ zs)) (z_is_x) (Perm.swap y z zs)
  set-perm (z ∷ zs) (suc i) y {x} e =
      Perm.trans (Perm.swap z x (set zs i y))
        (Perm.trans (Perm.cons z (set-perm zs i y e)) (Perm.swap y z zs))

  get_elem?-set :
      (xs : List A) (i j : ℕ) {a b : A}
      → get_elem? xs i ≡ some a
      → get_elem? xs j ≡ some b
      → get_elem? (set xs i b) j ≡ some b
  get_elem?-set [] i j p q = absurd (ground arith)
  get_elem?-set (x ∷ xs) zero zero p q = refl
  get_elem?-set (x ∷ xs) zero (suc j) p q = q
  get_elem?-set (x ∷ xs) (suc i) zero p q = q
  get_elem?-set (x ∷ xs) (suc i) (suc j) p q = get_elem?-set xs i j p q

  pub swap_at-perm : (i j : ℕ) (xs : List A) → Perm (swap_at i j xs) xs
  unfolding swap_at
  swap_at-perm i j xs = elim (Option-cases (get_elem? xs i)) [
    | inl p ↦ rw (p, swap_at) (Perm.refl xs)
    | inr (a, p) ↦ elim (Option-cases (get_elem? xs j)) [
      | inl q ↦ rw (p, q, swap_at) (Perm.refl xs)
      | inr (b, q) ↦
          rw (p, q, swap_at)
            (Perm.cons_inv (
              Perm.trans (set-perm (set xs i b) j a (get_elem?-set xs i j p q))
                (set-perm xs i b p)))
    ]
  ]

  pub swap_at-All {κ} : (P : A → Type κ) (i j : ℕ) (xs : List A) → All P xs → All P (swap_at i j xs)
  unfolding swap_at
  swap_at-All P i j xs h = elim (Option-cases (get_elem? xs i)) [
    | inl p ↦ rw (p, swap_at) h
    | inr (a, p) ↦ elim (Option-cases (get_elem? xs j)) [
      | inl q ↦ rw (p, q, swap_at) h
      | inr (b, q) ↦
          rw (p, q, swap_at)
            (All-set P (set xs i b) j a (All-set P xs i b h (All-get_elem? P xs j h q))
              (All-get_elem? P xs i h p))
    ]
  ]

  length-native : (xs : List A) → length xs ≡ to_native (List.length xs)
  unfolding to_native
  length-native [] = refl
  length-native (x ∷ xs) = ap suc (length-native xs)

  pub length-perm : {xs ys : List A} → Perm xs ys → length xs ≡ length ys
  length-perm {xs} {ys} p =
      length-native xs ∙ ap to_native (Perm.length-eq p) ∙ sym (length-native ys)
