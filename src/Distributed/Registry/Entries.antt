-- ===== src/Distributed/Registry/Entries.antt =====
-- The map of runs: what a write under one ID changes.
use text.Mathlib.TextEquality.{eq_iff}
use emm_go_script.Common.{
  Bool-cases, All, Distinct, ◌==◌, nat_eq, string_eq, ==_iff, lookup, String, ◌≡◌, refl, sym, ◌∙◌,
  subst, ◌≢◌, inl, inr, none, some, List, [], ◌∷◌, map, arith,
}
use emm_go_script.Distributed.Registry.{RunRecord, update}

module _ {D : Type 0} where
  abbrev pub keys : List (String × RunRecord D) → List String
  keys = map (λ e. e.0)

  pub keys-update :
      (id : String) (f : RunRecord D → RunRecord D) (m : List (String × RunRecord D))
      → keys (update id f m) ≡ keys m
  unfolding update
  keys-update id f [] = refl
  keys-update id f ((k, r) ∷ m) = ground (arith, keys-update id f m)

  pub lookup-update_self :
      (id : String) (f : RunRecord D → RunRecord D) (m : List (String × RunRecord D))
      {r : RunRecord D}
      → lookup id m ≡ some r
      → lookup id (update id f m) ≡ some (f r)
  unfolding update lookup
  lookup-update_self id f [] h = cc
  lookup-update_self id f ((k, r) ∷ m) {r = r'} h =
      ground (arith, lookup-update_self id f m {r = r'})

  pub lookup-update_ne :
      (id j : String) (f : RunRecord D → RunRecord D) (m : List (String × RunRecord D))
      → id ≢ j
      → lookup j (update id f m) ≡ lookup j m
  unfolding update lookup
  lookup-update_ne id j f [] h = refl
  lookup-update_ne id j f ((k, r) ∷ m) h =
      ground (arith, eq_iff k id, eq_iff k j, h, lookup-update_ne id j f m h)

  pub lookup-absent :
      (id : String) (m : List (String × RunRecord D))
      → lookup id m ≡ none
      → All (λ k. id ≢ k) (keys m)
  unfolding lookup
  lookup-absent id [] h = tt
  lookup-absent id ((k, r) ∷ m) h =
      ((λ e. ground (arith, eq_iff k id)), lookup-absent id m (ground arith))

  pub lookup-All {ℓ} :
      (P : String × RunRecord D → Type ℓ) (id : String) (m : List (String × RunRecord D))
      {r : RunRecord D}
      → All P m
      → lookup id m ≡ some r
      → P (id, r)
  unfolding lookup
  lookup-All P id [] h e = absurd (ground arith)
  lookup-All P id ((k, r) ∷ m) {r = r'} h e = elim (Bool-cases (k == id)) [
    | inl t ↦
        let er : r ≡ r' = ground arith in
        subst (λ x. P (id, x)) er (subst (λ x. P (x, r)) ((==_iff k id).0 t) h.0)
    | inr t ↦ lookup-All P id m h.1 (rw (t, lookup) at e)
  ]

  -- A write under `id` turns the entries' property `P` into `Q` if the written entry gets it and all others keep it.
  pub update-All {ℓ κ} :
      (P : String × RunRecord D → Type ℓ) (Q : String × RunRecord D → Type κ) (id : String)
      (f : RunRecord D → RunRecord D)
      → ((r : RunRecord D) → P (id, r) → Q (id, f r))
      → ((k : String) (r : RunRecord D) → id ≢ k → P (k, r) → Q (k, r))
      → (m : List (String × RunRecord D)) → Distinct (keys m)
      → All P m
      → All Q (update id f m)
  unfolding update
  update-All P Q id f here there [] d h = tt
  update-All P Q id f here there ((k, r) ∷ m) d h = elim (Bool-cases (k == id)) [
    | inl t ↦
        let e = (==_iff k id).0 t in
        rw (t, update)
          (
            subst (λ x. Q (x, f r)) (sym e) (here r (subst (λ x. P (x, r)) e h.0)),
            others e m d.0 h.1,
          )
    | inr t ↦
        rw (t, update)
          (
            there k r (λ e. ground (arith, eq_iff k id)) h.0,
            update-All P Q id f here there m d.1 h.1,
          )
  ]
    where
      others :
          k ≡ id → (m : List (String × RunRecord D)) → All (λ y. k ≢ y) (keys m) → All P m → All Q m
      others e [] d h = tt
      others e ((j, s) ∷ m) d h = (there j s (λ p. d.0 (e ∙ p)) h.0, others e m d.1 h.1)
