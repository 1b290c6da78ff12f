-- ===== src/Reports/Aggregate/Summed.antt =====
-- The totals of merged reports (report.go).
use emm_go_script.Common.{
  Bool-cases, length, All, ok, >>=-eq-ok, or_fail, guard-eq-ok, ok-injective, or_fail-eq-ok,
  some-injective, string_eq, nat_eq, ◌==◌, lookup, String, ◌≡◌, refl, sym, ap, ◌∙◌, subst, inl, inr,
  Bool, false, ◌&&◌, ◌||◌, some, List, [], ◌∷◌,
}
use emm_go_script.Config.{Job}
use emm_go_script.Reports.Counts.{Counts, no_counts, add_counts}
use emm_go_script.Reports.Counts.Sums.{
  CountsMap, add_counts_comm, add_counts-wrap, add_counts-Shifts, total_from, total,
  total_from-shift, update_at, total-update_at,
}
use emm_go_script.Reports.Evidence.{Time, Floats}
use emm_go_script.Reports.Tracker.{RunReport}
use emm_go_script.Reports.Tracker.Balanced.{SumsUp}
use emm_go_script.Reports.Validation.{
  report_count, missing_report, terminal_state, terminal_status, global_counts,
  validate_report_dimensions,
}
use emm_go_script.Reports.Aggregate.{
  Aggregated, merge_counts, empty_report, merge_report, is_terminal, merge_agents, finalized_report,
  has_completed, has_ended, aggregate, aggregate_terminal,
}

-- The total of merged entries, where those merged into them total `c` at first.
total-merge_counts :
    (target m : CountsMap String) {c : Counts}
    → total target ≡ c
    → total (merge_counts target m) ≡ total_from c m
unfolding merge_counts total_from
total-merge_counts target [] e = e
total-merge_counts target ((k, d) ∷ m) e =
    total-merge_counts (update_at k (λ c. add_counts c d) target) m (
      total-update_at (λ c. add_counts c d) k target (add_counts-Shifts d)
      ∙ ap (λ c. add_counts c d) e)

merge_counts-total :
    (target m : CountsMap String) {a b : Counts}
    → total target ≡ a
    → add_counts no_counts a ≡ a
    → total m ≡ b
    → total (merge_counts target m) ≡ add_counts a b
merge_counts-total target m {a} {b} e w f =
    total-merge_counts target m e
    ∙ ap (λ c. total_from c m) (sym w)
    ∙ total_from-shift (λ c. add_counts c a) (add_counts-Shifts a) no_counts m
    ∙ add_counts_comm (total m) a
    ∙ ap (add_counts a) f

-- A report whose maps sum up to its totals, which are patterns.
abbrev IsSummed : {F : Type 0} → RunReport F → Type 0
IsSummed r = SumsUp r × (add_counts no_counts r.totals ≡ r.totals)

merge_report-IsSummed :
    (fl : Floats) (agent : String) (r : RunReport fl.Float) (a : Aggregated fl.Float)
    → SumsUp r
    → IsSummed a.report
    → IsSummed (merge_report fl agent r a).report
unfolding merge_report
merge_report-IsSummed fl agent r a h g = (
  record {
    protocols = merge_counts-total a.report.protocols r.protocols g.0.protocols g.1 h.protocols;
    modes = merge_counts-total a.report.modes r.modes g.0.modes g.1 h.modes;
    dimensions =
        merge_counts-total a.report.dimensions r.dimensions g.0.dimensions g.1 h.dimensions;
  },
  add_counts-wrap a.report.totals r.totals,
)

lookup-All {ℓ κ} :
    {V : Type ℓ} (P : V → Type κ) (k : String) (m : List (String × V)) {v : V}
    → All (λ e. P e.1) m
    → lookup k m ≡ some v
    → P v
unfolding lookup
lookup-All P k [] h e = cc
lookup-All P k ((j, w) ∷ m) h e = elim (Bool-cases (j == k)) [
  | inl t ↦ subst P (some-injective (rw (t, lookup) at e)) h.0
  | inr t ↦ lookup-All P k m h.1 (rw (t, lookup) at e)
]

merge_agents-IsSummed :
    (fl : Floats) (now : Time) (accepts : RunReport fl.Float → Bool) (require : Bool)
    (reports : List (String × RunReport fl.Float)) (expected : List (String × List Job))
    (a : Aggregated fl.Float) (assets : List String) {merged : Aggregated fl.Float × List String}
    → All (λ e. SumsUp e.1) reports
    → IsSummed a.report
    → merge_agents fl now accepts require reports expected a assets ≡ ok merged
    → IsSummed (merged.0).report
unfolding merge_agents
merge_agents-IsSummed fl now accepts require reports [] a assets h g e =
    subst (λ p. IsSummed (p.0).report) (ok-injective e) g
merge_agents-IsSummed fl now accepts require reports ((agent, jobs) ∷ expected) a assets h g e =
    let (r, found, looked) = >>=-eq-ok (or_fail (lookup agent reports) missing_report) _ e in
    let accepted = guard-eq-ok (accepts r) terminal_state _ looked in
    let (got, validated, rest) =
      >>=-eq-ok (validate_report_dimensions fl now r jobs assets require) _ accepted.1 in
    merge_agents-IsSummed fl now accepts require reports expected (merge_report fl agent r a) got.1
      h
      (merge_report-IsSummed fl agent r a
        (lookup-All SumsUp agent reports h
          (or_fail-eq-ok (lookup agent reports) missing_report found))
        g)
      rest

empty_report-IsSummed :
    (fl : Floats) (run_id build_version status : String)
    → IsSummed (empty_report fl run_id build_version status)
unfolding total_from add_counts
empty_report-IsSummed fl run_id build_version status =
    (record { protocols = refl; modes = refl; dimensions = refl }, refl)

finalized_report-SumsUp :
    (fl : Floats) (a : Aggregated fl.Float)
    → SumsUp a.report
    → SumsUp (finalized_report fl a).report
unfolding finalized_report
finalized_report-SumsUp fl a h = record {
  protocols = h.protocols;
  modes = h.modes;
  dimensions = h.dimensions;
}

-- Where the entries of each map of the agents' reports sum up to their totals, as those of a tracker's report do, the entries of
-- each map of the controller's report sum up to its totals.
pub aggregate-SumsUp :
    (fl : Floats) (now : Time) (run_id build_version : String) (expected : List (String × List Job))
    (reports : List (String × RunReport fl.Float)) (require : Bool) {a : Aggregated fl.Float}
    → All (λ e. SumsUp e.1) reports
    → aggregate fl now run_id build_version expected reports require ≡ ok a
    → SumsUp a.report
unfolding aggregate
aggregate-SumsUp fl now run_id build_version expected reports require h e =
    let blank : Aggregated fl.Float = record {
      report = empty_report fl run_id build_version "completed";
      agents = [];
    } in
    let accepts = is_terminal fl run_id build_version (has_completed fl) in
    let counted = guard-eq-ok (length reports == length expected) report_count _ e in
    let (got, merged, rest) =
      >>=-eq-ok (merge_agents fl now accepts require reports expected blank []) _ counted.1 in
    let tallied =
      guard-eq-ok
        (got.0.report.totals.planned == length got.1 && got.0.report.totals.duplicates == 0)
        global_counts _ rest in
    subst (λ b. SumsUp b.report) (ok-injective tallied.1)
      (finalized_report-SumsUp fl got.0
        (merge_agents-IsSummed fl now accepts require reports expected blank [] h
          (empty_report-IsSummed fl run_id build_version "completed") merged).0)

-- The same of a run that has failed or was cancelled.
pub aggregate_terminal-SumsUp :
    (fl : Floats) (now : Time) (run_id build_version : String) (expected : List (String × List Job))
    (reports : List (String × RunReport fl.Float)) (status : String) {a : Aggregated fl.Float}
    → All (λ e. SumsUp e.1) reports
    → aggregate_terminal fl now run_id build_version expected reports status ≡ ok a
    → SumsUp a.report
unfolding aggregate_terminal
aggregate_terminal-SumsUp fl now run_id build_version expected reports status h e =
    let blank : Aggregated fl.Float = record {
      report = empty_report fl run_id build_version status;
      agents = [];
    } in
    let accepts = is_terminal fl run_id build_version (has_ended fl) in
    let ended = guard-eq-ok (status == "failed" || status == "cancelled") terminal_status _ e in
    let counted = guard-eq-ok (length reports == length expected) report_count _ ended.1 in
    let (got, merged, rest) =
      >>=-eq-ok (merge_agents fl now accepts false reports expected blank []) _ counted.1 in
    subst (λ b. SumsUp b.report) (ok-injective rest)
      (finalized_report-SumsUp fl got.0
        (merge_agents-IsSummed fl now accepts false reports expected blank [] h
          (empty_report-IsSummed fl run_id build_version status) merged).0)
