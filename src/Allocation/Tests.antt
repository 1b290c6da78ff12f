-- ===== src/Allocation/Tests.antt =====
-- Three jobs bound to the assets of a manifest. The generator draws 0.
use emm_go_script.Common.{ok, err, Int64, ℕ, String, ◌≡◌, refl, ◌≢◌, List, [], ◌∷◌}
use emm_go_script.Config.{Protocol, ssh, mysql, direct, Job}
use emm_go_script.Inventory.{ManifestAsset, Manifest}
use emm_go_script.Inventory.Manifests.{validate_manifest}
use emm_go_script.Allocation.{pool_exhausted, index_out_of_range, Summary, bind}
use emm_go_script.Allocation.Sound.{IsBound, bind-IsBound}
use emm_go_script.Allocation.Range.{bind-InRange}
use emm_go_script.Allocation.Handover.{bind-classify}
use emm_go_script.Distributed.Partition.{classify}

abbrev same : String → String
same s = s

abbrev draw : Int64 → Protocol → ℕ → ℕ
draw seed p i = 0

abbrev item : String → String → String → ManifestAsset
item n p a = record { name = n; ip = a; protocol = p; asset_id = a; account_id = n }

abbrev source : Manifest
source = record {
  version = 1;
  assets = item "b" "ssh" "x" ∷ item "m" "database" "y" ∷ item "a" "ssh" "z" ∷ [];
}

abbrev job : Int64 → Protocol → String → String → Job
job n p a c = record { id = n; protocol = p; mode = direct; asset_id = a; account_id = c }

abbrev jobs : List Job
jobs = job 1 ssh "" "" ∷ job 2 mysql "" "" ∷ job 3 ssh "" "" ∷ []

abbrev bound : List Job
bound = job 1 ssh "x" "b" ∷ job 2 mysql "y" "m" ∷ job 3 ssh "z" "a" ∷ []

abbrev summary : Summary
summary = record { planned = 3; by_protocol = (ssh, 2) ∷ (mysql, 1) ∷ (ssh, 1) ∷ [] }

bind_three : bind same same draw jobs source 7 ≡ ok (bound, summary)
unfolding bind
bind_three = refl

bind-IsBound_example :
    (m : Manifest) × (validate_manifest same same source ≡ ok m) × IsBound m jobs bound summary
bind-IsBound_example = bind-IsBound same same draw jobs source 7 bind_three

-- Four SSH jobs are more than the pool holds.
abbrev four_jobs : List Job
four_jobs = job 4 ssh "" "" ∷ jobs

bind_exhausted : bind same same draw four_jobs source 7 ≡ err (pool_exhausted ssh 2 3)
unfolding bind
bind_exhausted = refl

bind-InRange_example : bind same same draw four_jobs source 7 ≢ err index_out_of_range
bind-InRange_example = bind-InRange same same draw four_jobs source 7

bind-classify_example : (split : List Job × List Job) × (classify bound [] [] ≡ ok split)
bind-classify_example =
    bind-classify same same draw jobs source 7 (refl, (refl, (refl, tt))) bind_three
