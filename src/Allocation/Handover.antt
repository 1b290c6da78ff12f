-- ===== src/Allocation/Handover.antt =====
-- The controller binds jobs (allocation.go) and then partitions them (partition.go): the jobs between the two calls.
use text.Mathlib.TextEquality.{eq_iff}
use emm_go_script.Common.{
  Bool-cases, All, All-get_elem?, ok, string_eq, nat_eq, ◌==◌, ==_iff, mem, Fresh, Int64, ℕ, String,
  ◌≡◌, refl, sym, subst, ◌≢◌, inl, inr, true, false, ◌||◌, List, [], ◌∷◌, map, arith,
}
use emm_go_script.Config.{Protocol, direct, browser, Job}
use emm_go_script.Inventory.{ManifestAsset, Manifest}
use emm_go_script.Inventory.Manifests.Valid.{IsFilled, validate_manifest-IsValid}
use emm_go_script.Distributed.Partition.{file_job, classify}
use emm_go_script.Allocation.{Summary, bind_job, bind}
use emm_go_script.Allocation.Bound.{AllBound}
use emm_go_script.Allocation.Sound.{bind-IsBound}

abbrev HasMode : Job → Type 0
HasMode j = (j.mode == direct || j.mode == browser) ≡ true

abbrev HasBinding : Job → Type 0
HasBinding k = ((k.asset_id == "" || k.account_id == "") ≡ false) × HasMode k

fresh_after :
    (x : String) (seen xs : List String)
    → All (λ y. mem y seen ≡ false) xs
    → All (λ y. x ≢ y) xs
    → All (λ y. mem y (x ∷ seen) ≡ false) xs
unfolding mem
fresh_after x seen [] h d = tt
fresh_after x seen (y ∷ ys) h d = elim (Bool-cases (y == x)) [
  | inl t ↦ absurd (d.0 (sym ((==_iff y x).0 t)))
  | inr f ↦ (rw f h.0, fresh_after x seen ys h.1 d.1)
]

Fresh-uncons : (x : String) (seen xs : List String) → Fresh seen (x ∷ xs) → Fresh (x ∷ seen) xs
Fresh-uncons x seen xs f = (fresh_after x seen xs f.0.1 f.1.0, f.1.1)

none_seen : (xs : List String) → All (λ y. mem y [] ≡ false) xs
unfolding mem
none_seen [] = tt
none_seen (x ∷ xs) = (refl, none_seen xs)

classify-total :
    (js : List Job) (assets accounts : List String)
    → All HasBinding js
    → Fresh assets (map (λ k. k.asset_id) js)
    → Fresh accounts (map (λ k. k.account_id) js)
    → (split : List Job × List Job) × (classify js assets accounts ≡ ok split)
unfolding classify
classify-total [] assets accounts h fa fc = (([], []), refl)
classify-total (j ∷ js) assets accounts h fa fc =
    let (rest, e) =
      classify-total js (j.asset_id ∷ assets) (j.account_id ∷ accounts) h.1
        (Fresh-uncons j.asset_id assets (map (λ k. k.asset_id) js) fa)
        (Fresh-uncons j.account_id accounts (map (λ k. k.account_id) js) fc) in
    (file_job j rest, rw (h.0.0, fa.0.0, fc.0.0, h.0.1, e, classify) refl)

IsFilled-bound : (a : ManifestAsset) → IsFilled a → (a.asset_id == "" || a.account_id == "") ≡ false
IsFilled-bound a f =
    let p = f.asset_given in
    let q = f.account_given in ground (arith, eq_iff a.asset_id "", eq_iff a.account_id "")

AllBound-HasBinding :
    (assets : List ManifestAsset)
    → All IsFilled assets
    → (js ks : List Job) → All HasMode js
    → AllBound assets js ks
    → All HasBinding ks
unfolding bind_job
AllBound-HasBinding assets f [] [] m b = tt
AllBound-HasBinding assets f [] (k ∷ ks) m b = elim b [ ]
AllBound-HasBinding assets f (j ∷ js) [] m b = elim b [ ]
AllBound-HasBinding assets f (j ∷ js) (k ∷ ks) m b =
    let c = b.0.chosen_for in
    (
      subst HasBinding (sym b.0.binds)
          (IsFilled-bound b.0.chosen (All-get_elem? IsFilled assets c.index f c.found), m.0),
      AllBound-HasBinding assets f js ks m.1 b.1,
    )

module _ (trim_space to_lower : String → String) (rand_intn : Int64 → Protocol → ℕ → ℕ) where
  -- Where each job is direct or in a browser, the jobs that `Bind` gives pass the checks of `Partition` on jobs: none is
  -- unbound, and no asset or account stands twice.
  pub bind-classify :
      (jobs : List Job) (source : Manifest) (seed : Int64) {out : List Job} {summary : Summary}
      → All (λ j. (j.mode == direct || j.mode == browser) ≡ true) jobs
      → bind trim_space to_lower rand_intn jobs source seed ≡ ok (out, summary)
      → (split : List Job × List Job) × (classify out [] [] ≡ ok split)
  bind-classify jobs source seed {out} modes e =
      let (m, v, b) = bind-IsBound trim_space to_lower rand_intn jobs source seed e in
      let (_, _, _, (filled, _)) = validate_manifest-IsValid trim_space to_lower source v in
      classify-total out [] [] (AllBound-HasBinding m.assets filled jobs out modes b.each)
        (none_seen (map (λ k. k.asset_id) out), b.assets_once)
        (none_seen (map (λ k. k.account_id) out), b.accounts_once)
