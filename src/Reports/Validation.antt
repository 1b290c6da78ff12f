-- ===== src/Reports/Validation.antt =====
-- `validateReportDimensions` and `validateEvidence` (report.go): what the controller demands of an agent's report. `now` is the
-- time of the call. The set `globalAssets` is an argument and a result.
pub mod Passed
pub mod Compared
use emm_go_script.Common.{
  if◌then◌else◌, length, Result, ok, guard, ◌>>=◌, ◌>>◌, or_fail, get_or, string_eq, nat_eq, ◌==◌,
  mem, lookup, Int64, lt_int, String, Bool, true, false, not, ◌&&◌, ◌||◌, none, some, List, [], ◌∷◌,
}
use emm_go_script.Config.{Protocol, ExecutionMode, direct, Job}
use emm_go_script.Reports.Counts.{
  Counts, no_counts, add_counts, valid_counts, same_counts, all_succeeded,
}
use emm_go_script.Reports.Counts.Sums.{CountsMap}
use emm_go_script.Reports.Evidence.{
  Time, Floats, Measurements, no_measurements, merge_measurements, change_at,
  finalized_measurements,
}
use emm_go_script.Reports.Evidence.Checks.{valid_measurements, equal_measurements}
use emm_go_script.Reports.Tracker.{RunReport, dimension_key, add_number}

pub data ReportError : Type 0 where
  global_duplicate invalid_totals inconsistent_totals : ReportError
  inconsistent_protocol unexpected_protocol protocol_totals : ReportError
  inconsistent_mode unexpected_mode mode_totals : ReportError
  inconsistent_dimension unexpected_dimension dimension_totals : ReportError
  evidence_dimensions invalid_evidence not_maintained not_bidirectional : ReportError
  total_evidence protocol_evidence_differs mode_evidence_differs : ReportError
  report_count missing_report terminal_state terminal_status global_counts : ReportError

-- `reportExpectation`.
pub record Expectation : Type 0 where
  pub planned_by_protocol : List (Protocol × Int64)
  pub planned_by_mode : List (ExecutionMode × Int64)
  pub planned_by_dimension : List (String × Int64)
  pub protocol_by_dimension : List (String × Protocol)
  pub mode_by_dimension : List (String × ExecutionMode)

abbrev pub no_expectation : Expectation
no_expectation = record {
  planned_by_protocol = [];
  planned_by_mode = [];
  planned_by_dimension = [];
  protocol_by_dimension = [];
  mode_by_dimension = [];
}

-- `m[k] = v`
unfoldable pub assign : String → String → List (String × String) → List (String × String)
assign k v [] = (k, v) ∷ []
assign k v ((j, w) ∷ m) = let later = assign k v m in if j == k then (j, v) ∷ m else (j, w) ∷ later

pub expect_job : Job → Expectation → Expectation
unfolding add_number assign dimension_key
expect_job j e =
    let key = dimension_key j.protocol j.mode in
    record {
      planned_by_protocol = add_number 1 j.protocol e.planned_by_protocol;
      planned_by_mode = add_number 1 j.mode e.planned_by_mode;
      planned_by_dimension = add_number 1 key e.planned_by_dimension;
      protocol_by_dimension = assign key j.protocol e.protocol_by_dimension;
      mode_by_dimension = assign key j.mode e.mode_by_dimension;
    }

-- The loop over the jobs.
unfoldable pub expect_jobs :
    List Job → Expectation → List String → Result ReportError (Expectation × List String)
unfolding expect_job
expect_jobs [] e assets = ok (e, assets)
expect_jobs (j ∷ js) e assets = do
  guard (not (mem j.asset_id assets)) global_duplicate
  expect_jobs js (expect_job j e) (j.asset_id ∷ assets)

-- The loop over the planned numbers of a map, with the total so far.
unfoldable pub check_entries :
    ReportError → List (String × Int64) → CountsMap String → Counts → Result ReportError Counts
unfolding valid_counts add_counts
check_entries e [] counts sum = ok sum
check_entries e ((k, planned) ∷ rest) counts sum = do
  c ← or_fail (lookup k counts) e
  guard (c.planned == planned && valid_counts c) e
  check_entries e rest counts (add_counts sum c)

unfoldable pub are_expected : List (String × Int64) → CountsMap String → Bool
are_expected planned [] = true
are_expected planned ((k, c) ∷ m) = elim (lookup k planned) [
  | none ↦ false
  | some _ ↦ are_expected planned m
]

-- The demands on one of the three maps.
unfoldable pub check_map :
    ReportError
    → ReportError
    → ReportError
    → List (String × Int64)
    → CountsMap String
    → Counts
    → Result ReportError (Unit {0})
unfolding check_entries are_expected same_counts
check_map inconsistent unexpected differs planned counts totals = do
  sum ← check_entries inconsistent planned counts no_counts
  guard (are_expected planned counts) unexpected
  guard (same_counts sum totals) differs

module _ (fl : Floats) where
  -- The evidence that the dimensions sum up to.
  pub record Wanted : Type 0 where
    pub total_evidence : Measurements fl.Float
    pub protocols : List (Protocol × Measurements fl.Float)
    pub modes : List (ExecutionMode × Measurements fl.Float)

  abbrev pub nothing_wanted : Wanted
  nothing_wanted = record { total_evidence = no_measurements fl; protocols = []; modes = [] }

  pub want : Protocol → ExecutionMode → Measurements fl.Float → Wanted → Wanted
  unfolding merge_measurements change_at
  want p m value w =
      let merge : Measurements fl.Float → Measurements fl.Float =
        λ target. merge_measurements fl target value in
      record {
        total_evidence = merge w.total_evidence;
        protocols = change_at fl p merge w.protocols;
        modes = change_at fl m merge w.modes;
      }

  pub proves_maintained : Measurements fl.Float → Int64 → Bool
  proves_maintained value maintained =
      length value.connect_latency_samples == maintained
      && value.active_sessions == maintained
      && value.last_activity_sessions == maintained
      && not (lt_int value.activity_events maintained)

  -- The loop over the dimensions.
  pub check_dimensions :
      Time
      → RunReport fl.Float
      → Expectation
      → Bool
      → List (String × Int64)
      → Wanted
      → Result ReportError Wanted
  unfolding valid_measurements proves_maintained want
  check_dimensions now report e require [] w = ok w
  check_dimensions now report e require ((key, planned) ∷ rest) w =
      let counts = get_or (lookup key report.dimensions) no_counts in
      let p = get_or (lookup key e.protocol_by_dimension) "" in
      let m = get_or (lookup key e.mode_by_dimension) "" in
      do
        value ← or_fail (lookup key report.dimension_evidence) invalid_evidence
        guard (valid_measurements fl now value) invalid_evidence
        guard (not require || proves_maintained value counts.maintained) not_maintained
        guard (not (require && m == direct) || value.bidirectional_sessions == counts.maintained)
            not_bidirectional
        check_dimensions now report e require rest (want p m value w)

  -- The two last loops.
  pub check_wanted :
      List (String × Int64)
      → List (String × Measurements fl.Float)
      → List (String × Measurements fl.Float)
      → Bool
  unfolding equal_measurements finalized_measurements
  check_wanted [] evidence wanted = true
  check_wanted ((k, planned) ∷ rest) evidence wanted =
      equal_measurements fl (get_or (lookup k evidence) (no_measurements fl))
        (finalized_measurements fl (get_or (lookup k wanted) (no_measurements fl)))
      && check_wanted rest evidence wanted

  pub validate_evidence :
      Time → RunReport fl.Float → Expectation → Bool → Result ReportError (Unit {0})
  unfolding check_dimensions check_wanted equal_measurements finalized_measurements
  validate_evidence now report e require = do
    guard
        (length report.protocol_evidence == length e.planned_by_protocol
          && length report.mode_evidence == length e.planned_by_mode
          && length report.dimension_evidence == length e.planned_by_dimension)
        evidence_dimensions
    w ← check_dimensions now report e require e.planned_by_dimension nothing_wanted
    guard (equal_measurements fl report.evidence (finalized_measurements fl w.total_evidence))
        total_evidence
    guard (check_wanted e.planned_by_protocol report.protocol_evidence w.protocols)
        protocol_evidence_differs
    guard (check_wanted e.planned_by_mode report.mode_evidence w.modes) mode_evidence_differs

  -- `validateReportDimensions`. It gives the expectation and the assets of this agent and of those before.
  unfoldable pub validate_report_dimensions :
      Time
      → RunReport fl.Float
      → List Job
      → List String
      → Bool
      → Result ReportError (Expectation × List String)
  unfolding expect_jobs valid_counts all_succeeded check_map validate_evidence
  validate_report_dimensions now report jobs assets require = do
    (e, assets') ← expect_jobs jobs no_expectation assets
    guard (report.totals.planned == length jobs && valid_counts report.totals) invalid_totals
    guard (not require || all_succeeded report.totals) inconsistent_totals
    check_map inconsistent_protocol unexpected_protocol protocol_totals e.planned_by_protocol
        report.protocols report.totals
    check_map inconsistent_mode unexpected_mode mode_totals e.planned_by_mode report.modes
        report.totals
    check_map inconsistent_dimension unexpected_dimension dimension_totals e.planned_by_dimension
        report.dimensions report.totals
    validate_evidence now report e require
    ok (e, assets')
