-- ===== src/Reports/Tracker/Tests.antt =====
-- A tracker of two jobs, of which one starts and one does not.
use mathlib.Core.List.Perm
use emm_go_script.Common.{
  Result, ok, err, get_or, string_eq, nat_eq, ==_iff, mem, lookup, ℕ, String, ◌≡◌, refl, true, none,
  some, [], ◌∷◌,
}
use emm_go_script.Scheduler.Launch.{contains}
use emm_go_script.Reports.Samples.{whole_millis, ssh_job, web_job, lively}
use emm_go_script.Reports.Counts.{same_counts}
use emm_go_script.Reports.Validation.Compared.{Looped, snapshot-same_counts}
use emm_go_script.Reports.Validation.{
  inconsistent_protocol, inconsistent_mode, inconsistent_dimension, Expectation, check_entries,
}
use emm_go_script.Reports.Tracker.{
  RunReport, Tracker, TrackerError, duplicate_asset, dimension_key, retry_one, increment,
  empty_tracker, new_tracker, attempt, started_job, record_failure, job_start_failed,
  record_observation, snapshot,
}
use emm_go_script.Reports.Tracker.Changes.{retried}
use emm_go_script.Reports.Tracker.Balanced.{
  Balanced, Reach, created, attempted, started, not_started, counted, recorded, Reach-Balanced,
}

abbrev lower : String → String
lower text = text

abbrev or_empty : Result TrackerError (Tracker ℕ) → Tracker ℕ
or_empty (ok t) = t
or_empty (err e) = empty_tracker whole_millis "" ""

planned : Tracker ℕ
unfolding new_tracker mem lookup
planned = or_empty (new_tracker whole_millis "run" "dev" (ssh_job ∷ web_job ∷ []))

tried : Tracker ℕ
unfolding attempt planned
tried = get_or (attempt whole_millis ssh_job planned) planned

ran : Tracker ℕ
unfolding tried
ran = job_start_failed whole_millis lower web_job (some "connection refused by host") (
    record_observation whole_millis ssh_job lively
      (increment whole_millis ssh_job retry_one (started_job whole_millis ssh_job tried)))

ran-Reach : Reach whole_millis lower ran
unfolding ran tried attempt planned new_tracker mem lookup
ran-Reach = not_started web_job (some "connection refused by host") (
    recorded ssh_job lively (
      counted ssh_job
        (started ssh_job
          (attempted ssh_job (created "run" "dev" (ssh_job ∷ web_job ∷ []) refl) refl))
        retried))

Reach-Balanced_example : Balanced ran
Reach-Balanced_example = Reach-Balanced ran-Reach

-- What the controller expects of the agent that has the two jobs.
abbrev wanted : Expectation
wanted = record {
  planned_by_protocol = ("web", 1) ∷ ("ssh", 1) ∷ [];
  planned_by_mode = ("direct", 1) ∷ ("browser", 1) ∷ [];
  planned_by_dimension = ("ssh/direct", 1) ∷ ("web/browser", 1) ∷ [];
  protocol_by_dimension = [];
  mode_by_dimension = [];
}

-- The first job has started; the second one has not been tried.
begun : Tracker ℕ
unfolding tried
begun = started_job whole_millis ssh_job tried

begun-Reach : Reach whole_millis lower begun
unfolding begun tried attempt planned new_tracker mem lookup
begun-Reach =
    started ssh_job (attempted ssh_job (created "run" "dev" (ssh_job ∷ web_job ∷ []) refl) refl)

reported : RunReport ℕ
unfolding begun
reported = snapshot whole_millis "running" begun

protocols-Looped :
    Looped inconsistent_protocol wanted.planned_by_protocol reported.protocols reported.totals
unfolding reported begun tried attempt planned new_tracker started_job snapshot mem lookup
    check_entries
protocols-Looped = record {
  distinct = ((λ e. absurd (let t = (==_iff "ssh" "web").1 e in cc), tt), (tt, tt));
  same_keys = Perm.swap "ssh" "web" [];
  passed = refl;
}

modes-Looped : Looped inconsistent_mode wanted.planned_by_mode reported.modes reported.totals
unfolding reported begun tried attempt planned new_tracker started_job snapshot mem lookup
    check_entries
modes-Looped = record {
  distinct = ((λ e. absurd (let t = (==_iff "direct" "browser").1 e in cc), tt), (tt, tt));
  same_keys = Perm.refl ("direct" ∷ "browser" ∷ []);
  passed = refl;
}

dimensions-Looped :
    Looped inconsistent_dimension wanted.planned_by_dimension reported.dimensions reported.totals
unfolding reported begun tried attempt planned new_tracker started_job snapshot mem lookup
    check_entries dimension_key
dimensions-Looped = record {
  distinct = ((λ e. absurd (let t = (==_iff "ssh/direct" "web/browser").1 e in cc), tt), (tt, tt));
  same_keys = Perm.refl ("ssh/direct" ∷ "web/browser" ∷ []);
  passed = refl;
}

snapshot-same_counts_example :
    (same_counts reported.totals reported.totals ≡ true)
    × (same_counts reported.totals reported.totals ≡ true)
    × (same_counts reported.totals reported.totals ≡ true)
unfolding reported
snapshot-same_counts_example =
    snapshot-same_counts "running" wanted begun-Reach protocols-Looped modes-Looped
      dimensions-Looped

new_tracker-twice :
    new_tracker whole_millis "run" "dev" (ssh_job ∷ ssh_job ∷ []) ≡ err duplicate_asset
unfolding new_tracker mem lookup
new_tracker-twice = refl

attempt-unplanned : attempt whole_millis (record ssh_job { protocol = "vnc" }) planned ≡ none
unfolding attempt planned new_tracker mem lookup
attempt-unplanned = refl

ran-failure_reasons : ran.failure_reasons ≡ ("start/connection_refused", 1) ∷ []
unfolding contains ran tried attempt planned new_tracker job_start_failed record_failure
    record_observation increment started_job mem lookup
ran-failure_reasons = refl

ran-connects : ran.evidence.connect_latency_samples ≡ 7 ∷ []
unfolding ran tried attempt planned new_tracker job_start_failed record_failure record_observation
    increment started_job mem lookup
ran-connects = refl
