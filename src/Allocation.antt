-- ===== src/Allocation.antt =====
-- pam-loadtest/internal/allocation/allocation.go: `Bind`. `rand_intn seed p i` is what `random.Intn(i + 1)` gives in the
-- shuffle of protocol `p`'s pool, where the generator starts from `seed` and the hash of `p`. No statement
-- depends on the numbers drawn.
mod Pools
mod Places
mod Total
pub mod Range
mod Handover
pub mod Sound
pub mod Bound
mod Tests
use emm_go_script.Common.{
  ltb, if◌then◌else◌, length, get_elem?, Result, ok, err, guard, ◌>>=◌, ◌>>◌, or_fail, get_or,
  string_eq, nat_eq, ◌==◌, mem, lookup, Int64, lt_int, ℕ, zero, suc, ◌+◌, ◌-◌, String, Bool, not,
  ◌&&◌, ◌||◌, List, [], ◌∷◌,
}
use emm_go_script.Common.Sorting.{sort_by}
use emm_go_script.Common.Unique.{swap_at}
use emm_go_script.Config.{Protocol, ssh, rdp, vnc, web, mysql, protocol_order, Job}
use emm_go_script.Inventory.{ManifestAsset, Manifest}
use emm_go_script.Inventory.Manifests.{ManifestError, validate_manifest, codes_less, string_less}

pub data BindError : Type 0 where
  bad_manifest : ManifestError → BindError
  id_not_positive duplicate_job_id : BindError
  already_bound unsupported_job : Int64 → BindError
  pool_exhausted : Protocol → ℕ → ℕ → BindError
  index_out_of_range : BindError

pub record Summary : Type 0 where
  pub planned : ℕ
  pub by_protocol : List (Protocol × ℕ)

-- A map of counters: the entry written last counts.
pub count_at : Protocol → List (Protocol × ℕ) → ℕ
unfolding lookup
count_at p m = get_or (lookup p m) 0

pub bump : Protocol → List (Protocol × ℕ) → List (Protocol × ℕ)
unfolding count_at
bump p m = (p, count_at p m + 1) ∷ m

pub pool_of : Protocol → List ManifestAsset → List ManifestAsset
pool_of p [] = []
pool_of p (a ∷ rest) = if a.protocol == p then a ∷ pool_of p rest else pool_of p rest

pub known_protocol : Protocol → Bool
known_protocol p = p == ssh || (p == rdp || (p == vnc || (p == web || p == mysql)))

-- The loop over the jobs: `requested` when it ends.
pub count_jobs :
    List Int64 → List (Protocol × ℕ) → List Job → Result BindError (List (Protocol × ℕ))
count_jobs seen requested [] = ok requested
count_jobs seen requested (j ∷ js) = do
  guard (lt_int 0 j.id) id_not_positive
  guard (not (mem j.id seen)) duplicate_job_id
  guard (j.asset_id == "" && j.account_id == "") (already_bound j.id)
  guard (known_protocol j.protocol) (unsupported_job j.id)
  count_jobs (j.id ∷ seen) (bump j.protocol requested) js

-- The loop over `requested`, whose keys are known protocols. One that no job has counts 0 and passes.
pub check_pools :
    List ManifestAsset → List (Protocol × ℕ) → List Protocol → Result BindError (Unit {0})
check_pools assets requested [] = ok tt
check_pools assets requested (p ∷ ps) = do
  guard (not (ltb (length (pool_of p assets)) (count_at p requested)))
      (pool_exhausted p (length (pool_of p assets)) (count_at p requested))
  check_pools assets requested ps

pub by_name_and_id : ManifestAsset → ManifestAsset → Bool
by_name_and_id i j =
    if i.name == j.name then string_less i.asset_id j.asset_id else string_less i.name j.name

-- The rounds of the shuffle from index `i` down.
pub shuffle : (ℕ → ℕ) → ℕ → List ManifestAsset → List ManifestAsset
shuffle draw zero pool = pool
shuffle draw (suc i) pool = shuffle draw i (swap_at (suc i) (draw (suc i)) pool)

pub shuffled_pool : (Protocol → ℕ → ℕ) → List ManifestAsset → Protocol → List ManifestAsset
shuffled_pool draw assets p =
    let pool = sort_by by_name_and_id (pool_of p assets) in shuffle (draw p) (length pool - 1) pool

pub bind_job : ManifestAsset → Job → Job
bind_job a j = record j { asset_id = a.asset_id; account_id = a.account_id }

-- The last loop. A read past the end of a pool is the panic that Go makes of it.
pub bind_jobs :
    (Protocol → List ManifestAsset) → List (Protocol × ℕ) → List Job → Result BindError (List Job)
bind_jobs pools positions [] = ok []
bind_jobs pools positions (j ∷ js) = do
  a ← or_fail (get_elem? (pools j.protocol) (count_at j.protocol positions)) index_out_of_range
  rest ← bind_jobs pools (bump j.protocol positions) js
  ok (bind_job a j ∷ rest)

pub valid_source : Result ManifestError Manifest → Result BindError Manifest
valid_source (ok m) = ok m
valid_source (err e) = err (bad_manifest e)

module _ (trim_space to_lower : String → String) (rand_intn : Int64 → Protocol → ℕ → ℕ) where
  unfoldable pub bind : List Job → Manifest → Int64 → Result BindError (List Job × Summary)
  unfolding valid_source count_jobs check_pools bind_jobs bind_job shuffled_pool shuffle pool_of
      count_at bump known_protocol by_name_and_id lookup mem string_less codes_less sort_by swap_at
      validate_manifest
  bind jobs source seed = do
    manifest ← valid_source (validate_manifest trim_space to_lower source)
    requested ← count_jobs [] [] jobs
    check_pools manifest.assets requested protocol_order
    bound ← bind_jobs (shuffled_pool (rand_intn seed) manifest.assets) [] jobs
    ok (bound, record { planned = length bound; by_protocol = requested })
