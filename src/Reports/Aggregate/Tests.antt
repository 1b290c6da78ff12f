-- ===== src/Reports/Aggregate/Tests.antt =====
-- Two agents with a job each, whose sessions were maintained.
use emm_go_script.Reports.Tracker.Balanced.{
  Reach, created, attempted, started, recorded, SumsUp, snapshot-SumsUp,
}
use emm_go_script.Reports.Aggregate.Merged.{Complete, aggregate_for_build-Complete}
use emm_go_script.Reports.Aggregate.Summed.{aggregate-SumsUp}
use emm_go_script.Common.{
  All, Result, ok, err, get_or, string_eq, nat_eq, mem, lookup, ℕ, String, ◌≡◌, refl, true, false,
  some, List, [], ◌∷◌,
}
use emm_go_script.Config.{Job}
use emm_go_script.Common.Sorting.{sort_by}
use emm_go_script.Reports.Evidence.{finalized_measurements}
use emm_go_script.Reports.Samples.{whole_millis, ssh_job, web_job, lively}
use emm_go_script.Reports.Validation.{
  ReportError, global_duplicate, expect_jobs, check_map, validate_report_dimensions,
}
use emm_go_script.Reports.Tracker.{
  RunReport, Tracker, TrackerError, empty_tracker, new_tracker, attempt, started_job,
  record_observation, snapshot,
}
use emm_go_script.Reports.Aggregate.{Aggregated, empty_report, aggregate, aggregate_for_build}

abbrev lower : String → String
lower text = text

abbrev or_empty : Result TrackerError (Tracker ℕ) → Tracker ℕ
or_empty (ok t) = t
or_empty (err e) = empty_tracker whole_millis "" ""

tracked : Job → Tracker ℕ
unfolding new_tracker
tracked j = or_empty (new_tracker whole_millis "run" "dev" (j ∷ []))

-- The tracker of an agent with one job, whose session is maintained.
maintained_one : Job → Tracker ℕ
unfolding attempt tracked
maintained_one j =
    record_observation whole_millis j lively
      (started_job whole_millis j (get_or (attempt whole_millis j (tracked j)) (tracked j)))

abbrev expected : List (String × List Job)
expected = ("agent-a", ssh_job ∷ []) ∷ ("agent-b", web_job ∷ []) ∷ []

reports : List (String × RunReport ℕ)
unfolding maintained_one
reports =
    ("agent-b", snapshot whole_millis "completed" (maintained_one web_job))
    ∷ ("agent-a", snapshot whole_millis "completed" (maintained_one ssh_job))
    ∷ []

abbrev merged_or_empty : Result ReportError (Aggregated ℕ) → Aggregated ℕ
merged_or_empty (ok a) = a
merged_or_empty (err e) = record { report = empty_report whole_millis "" "" ""; agents = [] }

merged : Aggregated ℕ
unfolding aggregate_for_build reports
merged = merged_or_empty (aggregate_for_build whole_millis 1000 "run" "dev" expected reports)

aggregate_for_build-merged :
    aggregate_for_build whole_millis 1000 "run" "dev" expected reports ≡ ok merged
unfolding merged aggregate_for_build reports maintained_one tracked attempt new_tracker snapshot
    record_observation started_job mem lookup validate_report_dimensions expect_jobs check_map
    finalized_measurements sort_by
aggregate_for_build-merged = refl

aggregate_for_build-Complete_example : Complete expected merged
aggregate_for_build-Complete_example =
    aggregate_for_build-Complete whole_millis 1000 "run" "dev" expected reports
      aggregate_for_build-merged

maintained_one-Reach :
    (j : Job) {first next : Tracker ℕ}
    → new_tracker whole_millis "run" "dev" (j ∷ []) ≡ ok first
    → attempt whole_millis j first ≡ some next
    → Reach whole_millis lower
        (record_observation whole_millis j lively (started_job whole_millis j next))
maintained_one-Reach j e f =
    recorded j lively (started j (attempted j (created "run" "dev" (j ∷ []) e) f))

ssh_job-Reach : Reach whole_millis lower (maintained_one ssh_job)
unfolding maintained_one tracked new_tracker attempt mem lookup
ssh_job-Reach = maintained_one-Reach ssh_job refl refl

web_job-Reach : Reach whole_millis lower (maintained_one web_job)
unfolding maintained_one tracked new_tracker attempt mem lookup
web_job-Reach = maintained_one-Reach web_job refl refl

reports-SumsUp : All (λ e. SumsUp e.1) reports
unfolding reports
reports-SumsUp =
    (snapshot-SumsUp "completed" web_job-Reach, (snapshot-SumsUp "completed" ssh_job-Reach, tt))

aggregate-merged : aggregate whole_millis 1000 "run" "dev" expected reports true ≡ ok merged
unfolding aggregate_for_build
aggregate-merged = aggregate_for_build-merged

aggregate-SumsUp_example : SumsUp merged.report
aggregate-SumsUp_example =
    aggregate-SumsUp whole_millis 1000 "run" "dev" expected reports true reports-SumsUp
      aggregate-merged

-- One agent's job is also given to the other.
aggregate-shared_asset :
    aggregate whole_millis 1000 "run" "dev"
      (("agent-a", ssh_job ∷ []) ∷ ("agent-b", ssh_job ∷ []) ∷ [])
      reports
      false
    ≡ err global_duplicate
unfolding aggregate reports maintained_one tracked attempt new_tracker snapshot record_observation
    started_job mem lookup validate_report_dimensions expect_jobs check_map finalized_measurements
    sort_by
aggregate-shared_asset = refl
