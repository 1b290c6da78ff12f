-- ===== src/Allocation/Pools.antt =====
-- The pools of `Bind`, shuffled (allocation.go).
use mathlib.Core.List.{Perm}
use mathlib.Core.List.Perm
use emm_go_script.Common.{
  Bool-cases, length, get_elem?, All, All-get_elem?, All-imp, Distinct, some-injective, string_eq,
  nat_eq, ◌==◌, ==_iff, ℕ, zero, suc, ◌-◌, String, ◌≡◌, refl, sym, ap, ◌∙◌, subst, ◌≢◌, inl, inr,
  some, List, [], ◌∷◌, map,
}
use emm_go_script.Common.Sorting.{sort_by, sort_by-perm, sort_by-All}
use emm_go_script.Common.Unique.{
  Distinct-perm, Distinct-get_elem?, get_elem?-map, swap_at, swap_at-perm, swap_at-All, length-perm,
}
use emm_go_script.Config.{Protocol}
use emm_go_script.Inventory.{ManifestAsset}
use emm_go_script.Allocation.{pool_of, by_name_and_id, shuffle, shuffled_pool}

-- An asset of the manifest, of the given protocol.
pub record IsAssetFor (assets : List ManifestAsset) (p : Protocol) (a : ManifestAsset)
    : Type 0 where
  pub index : ℕ
  pub found : get_elem? assets index ≡ some a
  pub serves : a.protocol ≡ p

IsAssetFor-cons :
    (a : ManifestAsset) (rest : List ManifestAsset) (p : Protocol) (b : ManifestAsset)
    → IsAssetFor rest p b
    → IsAssetFor (a ∷ rest) p b
IsAssetFor-cons a rest p b h = record { index = suc h.index; found = h.found; serves = h.serves }

pool_of-IsAssetFor :
    (p : Protocol) (assets : List ManifestAsset) → All (IsAssetFor assets p) (pool_of p assets)
unfolding pool_of
pool_of-IsAssetFor p [] = tt
pool_of-IsAssetFor p (a ∷ rest) =
    let tail =
      All-imp (IsAssetFor rest p) (IsAssetFor (a ∷ rest) p) (IsAssetFor-cons a rest p)
        (pool_of p rest) (pool_of-IsAssetFor p rest) in
    elim (Bool-cases (a.protocol == p)) [
      | inl t ↦
          rw (t, pool_of)
            (record { index = 0; found = refl; serves = (==_iff a.protocol p).0 t }, tail)
      | inr f ↦ rw (f, pool_of) tail
    ]

-- Selecting keeps what holds of every key.
module _ (f : ManifestAsset → String) (p : Protocol) where
  pool_of-All :
      (P : String → Type 0) (assets : List ManifestAsset)
      → All P (map f assets)
      → All P (map f (pool_of p assets))
  unfolding pool_of
  pool_of-All P [] h = tt
  pool_of-All P (a ∷ rest) h = elim (Bool-cases (a.protocol == p)) [
    | inl t ↦ rw (t, pool_of) (h.0, pool_of-All P rest h.1)
    | inr n ↦ rw (n, pool_of) (pool_of-All P rest h.1)
  ]

  pool_of-Distinct :
      (assets : List ManifestAsset) → Distinct (map f assets) → Distinct (map f (pool_of p assets))
  unfolding pool_of
  pool_of-Distinct [] h = tt
  pool_of-Distinct (a ∷ rest) h = elim (Bool-cases (a.protocol == p)) [
    | inl t ↦ rw (t, pool_of) (pool_of-All (λ y. f a ≢ y) rest h.0, pool_of-Distinct rest h.1)
    | inr n ↦ rw (n, pool_of) (pool_of-Distinct rest h.1)
  ]

shuffle-perm : (draw : ℕ → ℕ) (i : ℕ) (pool : List ManifestAsset) → Perm (shuffle draw i pool) pool
unfolding shuffle
shuffle-perm draw zero pool = Perm.refl pool
shuffle-perm draw (suc i) pool =
    Perm.trans (shuffle-perm draw i (swap_at (suc i) (draw (suc i)) pool))
      (swap_at-perm (suc i) (draw (suc i)) pool)

shuffle-All :
    (P : ManifestAsset → Type 0) (draw : ℕ → ℕ) (i : ℕ) (pool : List ManifestAsset)
    → All P pool
    → All P (shuffle draw i pool)
unfolding shuffle
shuffle-All P draw zero pool h = h
shuffle-All P draw (suc i) pool h =
    shuffle-All P draw i (swap_at (suc i) (draw (suc i)) pool)
      (swap_at-All P (suc i) (draw (suc i)) pool h)

module _ (draw : Protocol → ℕ → ℕ) (assets : List ManifestAsset) where
  pub shuffled_pool-perm : (p : Protocol) → Perm (shuffled_pool draw assets p) (pool_of p assets)
  unfolding shuffled_pool
  shuffled_pool-perm p =
      let pool = sort_by by_name_and_id (pool_of p assets) in
      Perm.trans (shuffle-perm (draw p) (length pool - 1) pool)
        (sort_by-perm by_name_and_id (pool_of p assets))

  shuffled_pool-IsAssetFor :
      (p : Protocol) → All (IsAssetFor assets p) (shuffled_pool draw assets p)
  unfolding shuffled_pool
  shuffled_pool-IsAssetFor p =
      let pool = sort_by by_name_and_id (pool_of p assets) in
      shuffle-All (IsAssetFor assets p) (draw p) (length pool - 1) pool (
        sort_by-All by_name_and_id (IsAssetFor assets p) (pool_of p assets)
          (pool_of-IsAssetFor p assets))

  pub length-shuffled_pool :
      (p : Protocol) → length (shuffled_pool draw assets p) ≡ length (pool_of p assets)
  length-shuffled_pool p = length-perm (shuffled_pool-perm p)

  pub pool_entry :
      (p : Protocol) (i : ℕ) {a : ManifestAsset}
      → get_elem? (shuffled_pool draw assets p) i ≡ some a
      → IsAssetFor assets p a
  pool_entry p i e =
      All-get_elem? (IsAssetFor assets p) (shuffled_pool draw assets p) i
        (shuffled_pool-IsAssetFor p) e

  -- Two places of the pools that hold the same key are one.
  pub place_unique :
      (f : ManifestAsset → String)
      → Distinct (map f assets)
      → (p q : Protocol) (i j : ℕ) {a b : ManifestAsset}
      → get_elem? (shuffled_pool draw assets p) i ≡ some a
      → get_elem? (shuffled_pool draw assets q) j ≡ some b
      → f a ≡ f b
      → (p ≡ q) × (i ≡ j)
  place_unique f d p q i j {a} {b} ea eb same =
      let at_a = pool_entry p i ea in
      let at_b = pool_entry q j eb in
      let one =
        Distinct-get_elem? (map f assets) at_a.index at_b.index {a = f b} d
          (get_elem?-map f assets at_a.index at_a.found ∙ ap some same)
          (get_elem?-map f assets at_b.index at_b.found) in
      let a_is_b : a ≡ b =
        some-injective (sym at_a.found ∙ ap (get_elem? assets) one ∙ at_b.found) in
      let p_is_q : p ≡ q = sym at_a.serves ∙ ap (λ z. z.protocol) a_is_b ∙ at_b.serves in
      (
        p_is_q,
        Distinct-get_elem? (map f (shuffled_pool draw assets q)) i j {a = f b}
            (Distinct-perm (Perm.map f (shuffled_pool-perm q)) (pool_of-Distinct f q assets d))
            (get_elem?-map f (shuffled_pool draw assets q) i
                (subst (λ r. get_elem? (shuffled_pool draw assets r) i ≡ some a) p_is_q ea)
              ∙ ap some same)
            (get_elem?-map f (shuffled_pool draw assets q) j eb),
      )
