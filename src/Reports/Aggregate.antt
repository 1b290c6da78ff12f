-- ===== src/Reports/Aggregate.antt =====
-- The merge of the agents' reports: `aggregateForBuild`, its callers and `AggregateTerminalForBuild` (report.go).
pub mod Merged
pub mod Summed
mod Tests
use emm_go_script.Common.{
  if◌then◌else◌, length, Result, ok, guard, ◌>>=◌, ◌>>◌, or_fail, string_eq, nat_eq, ◌==◌, lookup,
  Int64, String, Bool, true, false, ◌&&◌, ◌||◌, List, [], ◌∷◌, ◌++◌,
}
use emm_go_script.Config.{Job}
use emm_go_script.Reports.Counts.{no_counts, add_counts}
use emm_go_script.Reports.Counts.Sums.{CountsMap, update_at}
use emm_go_script.Reports.Evidence.{
  Time, Floats, no_measurements, merge_measurements, merge_measurement_map, finalized_measurements,
  finalized_measurement_map,
}
use emm_go_script.Reports.Tracker.{RunReport, schema_version, add_number}
use emm_go_script.Reports.Validation.{
  ReportError, report_count, missing_report, terminal_state, terminal_status, global_counts,
  validate_report_dimensions,
}

-- The merged report, with the agents' reports.
pub record Aggregated (F : Type 0) : Type 0 where
  pub report : RunReport F
  pub agents : List (String × RunReport F)

-- The loops that add the counts of a report to the entries of the result.
unfoldable pub merge_counts : CountsMap String → CountsMap String → CountsMap String
unfolding update_at add_counts
merge_counts target [] = target
merge_counts target ((k, c) ∷ m) =
    merge_counts (update_at k (λ merged. add_counts merged c) target) m

-- `mergeFailureReasons`.
unfoldable pub merge_failure_reasons :
    List (String × Int64) → List (String × Int64) → List (String × Int64)
unfolding add_number
merge_failure_reasons target [] = target
merge_failure_reasons target ((reason, n) ∷ source) =
    merge_failure_reasons (add_number n reason target) source

module _ (fl : Floats) where
  abbrev pub empty_report : String → String → String → RunReport fl.Float
  empty_report run_id build_version status = record {
    version = schema_version;
    build_version = build_version;
    run_id = run_id;
    status = status;
    totals = no_counts;
    protocols = [];
    modes = [];
    dimensions = [];
    evidence = no_measurements fl;
    protocol_evidence = [];
    mode_evidence = [];
    dimension_evidence = [];
    failure_reasons = [];
  }

  -- The body of the loop over the agents, after the checks.
  unfoldable pub merge_report :
      String → RunReport fl.Float → Aggregated fl.Float → Aggregated fl.Float
  unfolding add_counts merge_counts merge_measurements merge_measurement_map merge_failure_reasons
  merge_report agent r a = record {
    agents = a.agents ++ (agent, r) ∷ [];
    report = record (a.report) {
      totals = add_counts a.report.totals r.totals;
      protocols = merge_counts a.report.protocols r.protocols;
      modes = merge_counts a.report.modes r.modes;
      dimensions = merge_counts a.report.dimensions r.dimensions;
      evidence = merge_measurements fl a.report.evidence r.evidence;
      protocol_evidence = merge_measurement_map fl a.report.protocol_evidence r.protocol_evidence;
      mode_evidence = merge_measurement_map fl a.report.mode_evidence r.mode_evidence;
      dimension_evidence =
          merge_measurement_map fl a.report.dimension_evidence r.dimension_evidence;
      failure_reasons = merge_failure_reasons a.report.failure_reasons r.failure_reasons;
    };
  }

  -- The test of a report's version, build, run and status.
  unfoldable pub is_terminal : String → String → (String → Bool) → RunReport fl.Float → Bool
  is_terminal run_id build_version ended r =
      r.version == schema_version
      && r.build_version == build_version
      && r.run_id == run_id
      && ended r.status

  -- The loop over the agents that are expected, each with its jobs.
  pub merge_agents :
      Time
      → (RunReport fl.Float → Bool)
      → Bool
      → List (String × RunReport fl.Float)
      → List (String × List Job)
      → Aggregated fl.Float
      → List String
      → Result ReportError (Aggregated fl.Float × List String)
  unfolding validate_report_dimensions merge_report
  merge_agents now accepts require reports [] a assets = ok (a, assets)
  merge_agents now accepts require reports ((agent, jobs) ∷ expected) a assets = do
    r ← or_fail (lookup agent reports) missing_report
    guard (accepts r) terminal_state
    (e, assets') ← validate_report_dimensions fl now r jobs assets require
    merge_agents now accepts require reports expected (merge_report agent r a) assets'

  unfoldable pub finalized_report : Aggregated fl.Float → Aggregated fl.Float
  unfolding finalized_measurements finalized_measurement_map
  finalized_report a = record a {
    report = record (a.report) {
      evidence = finalized_measurements fl a.report.evidence;
      protocol_evidence = finalized_measurement_map fl a.report.protocol_evidence;
      mode_evidence = finalized_measurement_map fl a.report.mode_evidence;
      dimension_evidence = finalized_measurement_map fl a.report.dimension_evidence;
    };
  }

  unfoldable pub has_completed : String → Bool
  has_completed status = status == "completed"

  unfoldable pub has_ended : String → Bool
  has_ended status = status == "completed" || status == "failed" || status == "cancelled"

  -- `aggregateForBuild`.
  pub aggregate :
      Time
      → String
      → String
      → List (String × List Job)
      → List (String × RunReport fl.Float)
      → Bool
      → Result ReportError (Aggregated fl.Float)
  unfolding merge_agents is_terminal finalized_report has_completed
  aggregate now run_id build_version expected reports require = do
    guard (length reports == length expected) report_count
    (a, assets) ←
        merge_agents now (is_terminal run_id build_version has_completed) require reports expected
          (record { report = empty_report run_id build_version "completed"; agents = [] }) []
    guard (a.report.totals.planned == length assets && a.report.totals.duplicates == 0)
        global_counts
    ok (finalized_report a)

  -- `AggregateForBuild` and `AggregateConnectionOnlyForBuild`.
  unfoldable pub aggregate_for_build :
      Time
      → String
      → String
      → List (String × List Job)
      → List (String × RunReport fl.Float)
      → Result ReportError (Aggregated fl.Float)
  unfolding aggregate
  aggregate_for_build now run_id build_version expected reports =
      aggregate now run_id build_version expected reports true

  unfoldable pub aggregate_connection_only :
      Time
      → String
      → String
      → List (String × List Job)
      → List (String × RunReport fl.Float)
      → Result ReportError (Aggregated fl.Float)
  unfolding aggregate
  aggregate_connection_only now run_id build_version expected reports =
      aggregate now run_id build_version expected reports false

  pub first_build : List (String × RunReport fl.Float) → String
  first_build [] = ""
  first_build ((agent, r) ∷ reports) =
      if r.build_version == "" then first_build reports else r.build_version

  -- `Aggregate`.
  pub aggregate_first :
      Time
      → String
      → List (String × List Job)
      → List (String × RunReport fl.Float)
      → Result ReportError (Aggregated fl.Float)
  unfolding first_build aggregate_for_build
  aggregate_first now run_id expected reports =
      aggregate_for_build now run_id (first_build reports) expected reports

  -- `AggregateTerminalForBuild`.
  unfoldable pub aggregate_terminal :
      Time
      → String
      → String
      → List (String × List Job)
      → List (String × RunReport fl.Float)
      → String
      → Result ReportError (Aggregated fl.Float)
  unfolding merge_agents is_terminal finalized_report has_ended
  aggregate_terminal now run_id build_version expected reports status = do
    guard (status == "failed" || status == "cancelled") terminal_status
    guard (length reports == length expected) report_count
    (a, assets) ←
        merge_agents now (is_terminal run_id build_version has_ended) false reports expected
          (record { report = empty_report run_id build_version status; agents = [] }) []
    ok (finalized_report a)
