-- ===== src/Allocation/Range.antt =====
-- The last loop of `Bind` and the ends of its pools (allocation.go).
use emm_go_script.Common.{
  length, Result, ok, err, guard, ◌>>=◌, ◌>>◌, err-injective, string_eq, nat_eq, lookup, Int64, ℕ,
  ◌≤◌, String, ◌≡◌, refl, sym, ap, ◌∙◌, ◌≢◌, Bool, true, false, List, [], ◌∷◌, arith,
}
use emm_go_script.Config.{Protocol, protocol_order, Job}
use emm_go_script.Inventory.{ManifestAsset, Manifest}
use emm_go_script.Inventory.Manifests.{ManifestError, validate_manifest}
use emm_go_script.Allocation.{
  BindError, id_not_positive, duplicate_job_id, already_bound, unsupported_job, pool_exhausted,
  index_out_of_range, count_at, bump, pool_of, count_jobs, check_pools, shuffled_pool, bind_jobs,
  valid_source, bind,
}
use emm_go_script.Allocation.Pools.{length-shuffled_pool}
use emm_go_script.Allocation.Total.{
  count_jobs-asked, check_pools-room, known_protocol-All, bind_jobs-total,
}

abbrev InRange {ℓ} : {A : Type ℓ} → Result BindError A → Type ℓ
InRange {A = A} r = ◌≢◌ {A = Result BindError A} r (err index_out_of_range)

ok≢err {ℓ} : {A : Type ℓ} {a : A} {x : BindError} → ◌≢◌ {A = Result BindError A} (ok a) (err x)
ok≢err e = cc

>>=-InRange {ℓ κ} :
    {A : Type ℓ} {B : Type κ} (m : Result BindError A) (f : A → Result BindError B)
    → InRange m
    → ((a : A) → m ≡ ok a → InRange (f a))
    → InRange (m >>= f)
>>=-InRange (ok a) f h k = k a refl
>>=-InRange (err x) f h k = λ e. h (ap err (err-injective e))

ok-InRange {ℓ} : {A : Type ℓ} {m : Result BindError A} {a : A} → m ≡ ok a → InRange m
ok-InRange h e = ok≢err (sym h ∙ e)

guard-InRange {κ} :
    {B : Type κ} (t : Bool) (x : BindError) (k : Result BindError B)
    → x ≢ index_out_of_range
    → InRange k
    → InRange (guard t x >> k)
guard-InRange true x k h i = i
guard-InRange false x k h i = λ e. h (err-injective e)

count_jobs-InRange :
    (seen : List Int64) (requested : List (Protocol × ℕ)) (js : List Job)
    → InRange (count_jobs seen requested js)
unfolding count_jobs
count_jobs-InRange seen requested [] = λ e. cc
count_jobs-InRange seen requested (j ∷ js) =
    guard-InRange _ id_not_positive _ (λ e. cc)
      (guard-InRange _ duplicate_job_id _ (λ e. cc)
        (guard-InRange _ (already_bound j.id) _ (λ e. cc)
          (guard-InRange _ (unsupported_job j.id) _ (λ e. cc)
            (count_jobs-InRange (j.id ∷ seen) (bump j.protocol requested) js))))

check_pools-InRange :
    (assets : List ManifestAsset) (requested : List (Protocol × ℕ)) (ps : List Protocol)
    → InRange (check_pools assets requested ps)
unfolding check_pools
check_pools-InRange assets requested [] = λ e. cc
check_pools-InRange assets requested (p ∷ ps) =
    guard-InRange _ (pool_exhausted p (length (pool_of p assets)) (count_at p requested)) _
      (λ e. cc) (check_pools-InRange assets requested ps)

valid_source-InRange : (r : Result ManifestError Manifest) → InRange (valid_source r)
unfolding valid_source
valid_source-InRange (ok m) = λ e. cc
valid_source-InRange (err x) = λ e. cc

-- Behind the two checks, the last loop succeeds.
bind_jobs-checked :
    (draw : Protocol → ℕ → ℕ) (assets : List ManifestAsset) (jobs : List Job)
    → (requested : List (Protocol × ℕ)) → count_jobs [] [] jobs ≡ ok requested
    → check_pools assets requested protocol_order ≡ ok tt
    → (out : List Job) × (bind_jobs (shuffled_pool draw assets) [] jobs ≡ ok out)
unfolding count_at lookup
bind_jobs-checked draw assets jobs requested counted checked =
    let (known, counts) = count_jobs-asked [] [] jobs counted in
    let room =
      known_protocol-All (λ p. count_at p requested ≤ length (pool_of p assets))
        (check_pools-room assets requested protocol_order checked) in
    bind_jobs-total (shuffled_pool draw assets) [] jobs known
      (λ q k. omega (arith, counts q, room q k, length-shuffled_pool draw assets q))

module _ (trim_space to_lower : String → String) (rand_intn : Int64 → Protocol → ℕ → ℕ) where
  -- `Bind` never panics by an index out of range: each pool is checked to hold an asset for each job of its protocol.
  pub bind-InRange :
      (jobs : List Job) (source : Manifest) (seed : Int64)
      → bind trim_space to_lower rand_intn jobs source seed ≢ err index_out_of_range
  unfolding bind
  bind-InRange jobs source seed =
      >>=-InRange (valid_source (validate_manifest trim_space to_lower source)) _
        (valid_source-InRange _)
        (λ m _.
          >>=-InRange (count_jobs [] [] jobs) _ (count_jobs-InRange [] [] jobs)
            (λ requested counted.
              >>=-InRange (check_pools m.assets requested protocol_order) _
                (check_pools-InRange m.assets requested protocol_order)
                (λ _ checked.
                  >>=-InRange (bind_jobs (shuffled_pool (rand_intn seed) m.assets) [] jobs) _
                    (ok-InRange
                      (bind_jobs-checked (rand_intn seed) m.assets jobs requested counted
                        checked).1)
                    (λ bound _ e. cc))))
