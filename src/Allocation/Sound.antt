-- ===== src/Allocation/Sound.antt =====
-- The result of `Bind` (allocation.go).
use emm_go_script.Common.{
  length, Distinct, Result, ok, err, >>=-eq-ok, ok-injective, string_eq, nat_eq, lookup, Int64, ℕ,
  String, ◌≡◌, refl, subst, List, [], map, arith,
}
use emm_go_script.Config.{Protocol, protocol_order, Job}
use emm_go_script.Inventory.{Manifest}
use emm_go_script.Inventory.Manifests.{ManifestError, validate_manifest}
use emm_go_script.Inventory.Manifests.Valid.{validate_manifest-IsValid}
use emm_go_script.Allocation.{
  Summary, count_at, count_jobs, check_pools, shuffled_pool, bind_jobs, valid_source, bind,
}
use emm_go_script.Allocation.Bound.{AllBound}
use emm_go_script.Allocation.Places.{bind_jobs-AllBound, bind_jobs-Distinct}
use emm_go_script.Allocation.Total.{asked, count_jobs-asked}

-- The result of a binding to the assets of `m`.
pub record IsBound (m : Manifest) (jobs : List Job) (out : List Job) (summary : Summary)
    : Type 0 where
  pub each : AllBound m.assets jobs out
  pub assets_once : Distinct (map (λ k. k.asset_id) out)
  pub accounts_once : Distinct (map (λ k. k.account_id) out)
  pub planned_is : summary.planned ≡ length out
  pub counted : (q : Protocol) → count_at q summary.by_protocol ≡ asked q jobs

module _ (trim_space to_lower : String → String) (rand_intn : Int64 → Protocol → ℕ → ℕ) where
  valid_source-eq-ok :
      (r : Result ManifestError Manifest) {m : Manifest} → valid_source r ≡ ok m → r ≡ ok m
  unfolding valid_source
  valid_source-eq-ok (ok m) e = cc
  valid_source-eq-ok (err x) e = cc

  -- Jobs that are bound keep their order, IDs, protocols and modes, and each has both IDs of an asset of its protocol in
  -- the manifest. No asset and no account serves two jobs, and the summary counts the jobs and those of each protocol.
  pub bind-IsBound :
      (jobs : List Job) (source : Manifest) (seed : Int64) {out : List Job} {summary : Summary}
      → bind trim_space to_lower rand_intn jobs source seed ≡ ok (out, summary)
      → (m : Manifest) × (validate_manifest trim_space to_lower source ≡ ok m)
        × IsBound m jobs out summary
  unfolding bind count_at lookup
  bind-IsBound jobs source seed {out} {summary} e =
      let (m, e1, e2) =
        >>=-eq-ok (valid_source (validate_manifest trim_space to_lower source)) _ e in
      let (requested, e3, e4) = >>=-eq-ok (count_jobs [] [] jobs) _ e2 in
      let (_, _, e5) = >>=-eq-ok (check_pools m.assets requested protocol_order) _ e4 in
      let (bound, e6, e7) =
        >>=-eq-ok (bind_jobs (shuffled_pool (rand_intn seed) m.assets) [] jobs) _ e5 in
      let v = valid_source-eq-ok (validate_manifest trim_space to_lower source) e1 in
      let (_, _, _, (_, clear)) = validate_manifest-IsValid trim_space to_lower source v in
      let counts = count_jobs-asked [] [] jobs e3 in
      (
        m,
        v,
        subst (λ z. IsBound m jobs z.0 z.1) (ok-injective e7)
            (record {
              each = bind_jobs-AllBound (rand_intn seed) m.assets [] jobs e6;
              assets_once =
                  bind_jobs-Distinct (rand_intn seed) m.assets (λ a. a.asset_id) (λ k. k.asset_id)
                    (λ a j. refl) clear.assets_distinct [] jobs e6;
              accounts_once =
                  bind_jobs-Distinct (rand_intn seed) m.assets (λ a. a.account_id)
                    (λ k. k.account_id) (λ a j. refl) clear.accounts_distinct [] jobs e6;
              planned_is = refl;
              counted = λ q. omega (arith, counts.1 q);
            }),
      )
