-- ===== src/Reports/Tracker.antt =====
-- `Tracker` (report.go). A call is a step under the mutex. A text of the code, such as a phase, is a `String`; `to_lower` stands
-- for `strings.ToLower`.
pub mod Changes
pub mod Balanced
mod Tests
use emm_go_script.Common.{
  if◌then◌else◌, Result, ok, guard, ◌>>=◌, ◌>>◌, Eq, string_eq, nat_eq, ◌==◌, mem, lookup, Int64,
  add_int, String, ◌<>◌, not, ◌||◌, Option, none, some, List, [], ◌∷◌, ◌++◌,
}
use emm_go_script.Config.{Protocol, ExecutionMode, direct, browser, Job}
use emm_go_script.Scheduler.Launch.{contains}
use emm_go_script.Reports.Counts.{Counts, no_counts, derived}
use emm_go_script.Reports.Counts.Sums.{CountsMap, update_at}
use emm_go_script.Reports.Evidence.{
  Floats, Measurements, Observed, no_measurements, add_observation, change_at,
  finalized_measurements, finalized_measurement_map,
}

-- A report, without the reports of the agents that the merged one has besides.
pub record RunReport (F : Type 0) : Type 0 where
  pub version : Int64
  pub build_version : String
  pub run_id : String
  pub status : String
  pub totals : Counts
  pub protocols : CountsMap Protocol
  pub modes : CountsMap ExecutionMode
  pub dimensions : CountsMap String
  pub evidence : Measurements F
  pub protocol_evidence : List (Protocol × Measurements F)
  pub mode_evidence : List (ExecutionMode × Measurements F)
  pub dimension_evidence : List (String × Measurements F)
  pub failure_reasons : List (String × Int64)

pub record Tracker (F : Type 0) : Type 0 where
  pub run_id : String
  pub build_version : String
  pub totals : Counts
  pub protocols : CountsMap Protocol
  pub modes : CountsMap ExecutionMode
  pub dimensions : CountsMap String
  pub evidence : Measurements F
  pub protocol_evidence : List (Protocol × Measurements F)
  pub mode_evidence : List (ExecutionMode × Measurements F)
  pub dimension_evidence : List (String × Measurements F)
  pub failure_reasons : List (String × Int64)
  pub used : List String
  pub used_by_protocol : List (Protocol × List String)

pub data TrackerError : Type 0 where
  build_version_required : TrackerError
  missing_asset_binding missing_execution_mode : Int64 → TrackerError
  duplicate_asset : TrackerError

abbrev pub schema_version : Int64
schema_version = 3

unfoldable pub dimension_key : Protocol → ExecutionMode → String
dimension_key p m = p <> "/" <> m

-- `n++` on a map of numbers.
unfoldable pub add_number : Int64 → String → List (String × Int64) → List (String × Int64)
add_number n reason [] = (reason, add_int 0 n) ∷ []
add_number n reason ((r, count) ∷ m) =
    let later = add_number n reason m in
    if r == reason then (r, add_int count n) ∷ m else (r, count) ∷ later

-- `if _, exists := m[k]; !exists { m[k] = v }`
unfoldable pub ensure {ℓ κ} :
    {K : Type ℓ} {V : Type κ} ⦃same : Eq K⦄ → K → V → List (K × V) → List (K × V)
ensure k v m = elim (lookup k m) [ none ↦ m ++ (k, v) ∷ [] | some _ ↦ m ]

-- `failureCategory`, of an error's message.
pub failure_category : (String → String) → Option String → String
failure_category to_lower none = "unknown"
failure_category to_lower (some text) =
    let message = to_lower text in
    let has = contains message in
    if has "no_connect"
    then "pam_no_connect"
    else if has "pam session connect timeout"
    then "pam_connect_timeout"
    else if has "inbound traffic inactive"
    then "inbound_inactive"
    else if has "guacamole read failed"
    then "guacamole_read"
    else if has "guacamole activity failed"
    then "guacamole_activity"
    else if has "guacamole keepalive failed"
    then "guacamole_keepalive"
    else if has "deadline exceeded" || has "timeout" || has "timed out"
    then "timeout"
    else if has "connection refused"
    then "connection_refused"
    else if has "status 401"
        || has "status 403"
        || has "unauthorized"
        || has "forbidden"
        || has "license"
    then "authorization"
    else if has "status 5" || has "http 5"
    then "pam_http_5xx"
    else if has "websocket" || has "unexpected eof" || has "connection reset" || has "broken pipe"
    then "transport_closed"
    else if has "context canceled"
    then "cancelled"
    else "other"

-- The changes that the calls make to the totals and to the entries of the maps.
abbrev pub plan_one : Counts → Counts
plan_one c = record c { planned = add_int c.planned 1 }

abbrev pub use_one : Counts → Counts
use_one c = record c { used = add_int c.used 1 }

abbrev pub repeat_one : Counts → Counts
repeat_one c = record c { duplicates = add_int c.duplicates 1 }

abbrev pub start_one : Counts → Counts
start_one c = record c { started = add_int c.started 1 }

abbrev pub fail_start : Counts → Counts
fail_start c = record c { start_failures = add_int c.start_failures 1 }

abbrev pub fail_runtime : Counts → Counts
fail_runtime c = record c { runtime_failures = add_int c.runtime_failures 1 }

abbrev pub maintain_one : Counts → Counts
maintain_one c = record c { maintained = add_int c.maintained 1 }

abbrev pub retry_one : Counts → Counts
retry_one c = record c { connect_retry_attempts = add_int c.connect_retry_attempts 1 }

abbrev pub succeed_retry : Counts → Counts
succeed_retry c = record c { connect_retry_successes = add_int c.connect_retry_successes 1 }

abbrev pub exhaust_retry : Counts → Counts
exhaust_retry c = record c { connect_retry_exhausted = add_int c.connect_retry_exhausted 1 }

-- The entries of a snapshot's map.
unfoldable pub derived_map {κ} : {K : Type κ} → CountsMap K → CountsMap K
unfolding derived
derived_map [] = []
derived_map ((k, c) ∷ m) = (k, derived c) ∷ derived_map m

module _ (fl : Floats) where
  -- `increment`.
  unfoldable pub increment : Job → (Counts → Counts) → Tracker fl.Float → Tracker fl.Float
  unfolding update_at
  increment j update t = record t {
    totals = update t.totals;
    protocols = update_at j.protocol update t.protocols;
    modes = update_at j.mode update t.modes;
    dimensions = update_at (dimension_key j.protocol j.mode) update t.dimensions;
  }

  pub ensure_keys : Job → Tracker fl.Float → Tracker fl.Float
  unfolding ensure
  ensure_keys j t = record t {
    used_by_protocol = ensure j.protocol [] t.used_by_protocol;
    protocol_evidence = ensure j.protocol (no_measurements fl) t.protocol_evidence;
    mode_evidence = ensure j.mode (no_measurements fl) t.mode_evidence;
    dimension_evidence =
        ensure (dimension_key j.protocol j.mode) (no_measurements fl) t.dimension_evidence;
  }

  -- The loop over the jobs, with the assets planned before.
  pub plan_jobs : List Job → List String → Tracker fl.Float → Result TrackerError (Tracker fl.Float)
  unfolding increment ensure_keys
  plan_jobs [] planned t = ok t
  plan_jobs (j ∷ js) planned t = do
    guard (not (j.asset_id == "" || j.account_id == "")) (missing_asset_binding j.id)
    guard (j.mode == direct || j.mode == browser) (missing_execution_mode j.id)
    guard (not (mem j.asset_id planned)) duplicate_asset
    plan_jobs js (j.asset_id ∷ planned) (ensure_keys j (increment j plan_one t))

  abbrev pub empty_tracker : String → String → Tracker fl.Float
  empty_tracker run_id build_version = record {
    run_id = run_id;
    build_version = build_version;
    totals = no_counts;
    protocols = [];
    modes = [];
    dimensions = [];
    evidence = no_measurements fl;
    protocol_evidence = [];
    mode_evidence = [];
    dimension_evidence = [];
    failure_reasons = [];
    used = [];
    used_by_protocol = [];
  }

  -- `NewTrackerWithBuildVersion`.
  unfoldable pub new_tracker : String → String → List Job → Result TrackerError (Tracker fl.Float)
  unfolding plan_jobs
  new_tracker run_id build_version jobs = do
    guard (not (build_version == "")) build_version_required
    plan_jobs jobs [] (empty_tracker run_id build_version)

  note_use :
      Protocol → String → List (Protocol × List String) → Option (List (Protocol × List String))
  note_use p asset [] = none
  note_use p asset ((q, assets) ∷ m) =
      let later = note_use p asset m in
      if q == p
      then some ((q, if mem asset assets then assets else asset ∷ assets) ∷ m)
      else elim later [ none ↦ none | some m' ↦ some ((q, assets) ∷ m') ]

  count_use : Job → Tracker fl.Float → Tracker fl.Float
  unfolding increment
  count_use j t =
      if mem j.asset_id t.used
      then increment j repeat_one t
      else increment j use_one (record t { used = j.asset_id ∷ t.used })

  noted_tracker :
      Tracker fl.Float → Option (List (Protocol × List String)) → Option (Tracker fl.Float)
  noted_tracker t none = none
  noted_tracker t (some noted) = some (record t { used_by_protocol = noted })

  -- `Attempt`. It panics where the tracker has no set of assets for the job's protocol.
  unfoldable pub attempt : Job → Tracker fl.Float → Option (Tracker fl.Float)
  unfolding count_use note_use noted_tracker
  attempt j t = noted_tracker (count_use j t) (note_use j.protocol j.asset_id t.used_by_protocol)

  -- `Started`.
  unfoldable pub started_job : Job → Tracker fl.Float → Tracker fl.Float
  unfolding increment
  started_job j t = increment j start_one t

  unfoldable pub record_failure :
      (String → String) → String → Option String → Tracker fl.Float → Tracker fl.Float
  unfolding failure_category add_number
  record_failure to_lower phase failure t = record t {
    failure_reasons =
        add_number 1 (phase <> "/" <> failure_category to_lower failure) t.failure_reasons;
  }

  -- `StartFailed` and `RuntimeFailed`. The code releases the mutex between the count and the failure's record; the two change
  -- different parts of the tracker, so that calls that come between them find the same counts.
  unfoldable pub job_start_failed :
      (String → String) → Job → Option String → Tracker fl.Float → Tracker fl.Float
  unfolding increment record_failure
  job_start_failed to_lower j failure t =
      record_failure to_lower "start" failure (increment j fail_start t)

  unfoldable pub job_runtime_failed :
      (String → String) → Job → Option String → Tracker fl.Float → Tracker fl.Float
  unfolding increment record_failure
  job_runtime_failed to_lower j failure t =
      record_failure to_lower "runtime" failure (increment j fail_runtime t)

  -- `Record`.
  unfoldable pub record_observation : Job → Observed → Tracker fl.Float → Tracker fl.Float
  unfolding add_observation change_at
  record_observation j o t =
      let add : Measurements fl.Float → Measurements fl.Float = λ m. add_observation fl m o in
      record t {
        evidence = add t.evidence;
        protocol_evidence = change_at fl j.protocol add t.protocol_evidence;
        mode_evidence = change_at fl j.mode add t.mode_evidence;
        dimension_evidence =
            change_at fl (dimension_key j.protocol j.mode) add t.dimension_evidence;
      }

  -- `Snapshot`.
  unfoldable pub snapshot : String → Tracker fl.Float → RunReport fl.Float
  unfolding derived derived_map finalized_measurements finalized_measurement_map
  snapshot status t = record {
    version = schema_version;
    build_version = t.build_version;
    run_id = t.run_id;
    status = status;
    totals = derived t.totals;
    protocols = derived_map t.protocols;
    modes = derived_map t.modes;
    dimensions = derived_map t.dimensions;
    evidence = finalized_measurements fl t.evidence;
    protocol_evidence = finalized_measurement_map fl t.protocol_evidence;
    mode_evidence = finalized_measurement_map fl t.mode_evidence;
    dimension_evidence = finalized_measurement_map fl t.dimension_evidence;
    failure_reasons = t.failure_reasons;
  }
