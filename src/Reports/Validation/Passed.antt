-- ===== src/Reports/Validation/Passed.antt =====
-- What is known of a report that has passed `validateReportDimensions` (report.go).
use emm_go_script.Common.{
  length, ok, >>=-eq-ok, guard-eq-ok, ok-injective, string_eq, nat_eq, ◌==◌, ==_iff, mem, Fresh,
  Fresh-cons, ◌+◌, String, ◌≡◌, refl, sym, ap, ◌∙◌, subst, Bool, true, false, not, ◌&&◌, ◌||◌, List,
  [], ◌∷◌, ◌++◌, map, arith,
}
use emm_go_script.Config.{Job}
use emm_go_script.Reports.Counts.{Counts, valid_counts, all_succeeded}
use emm_go_script.Reports.Evidence.{Time, Floats}
use emm_go_script.Reports.Tracker.{RunReport}
use emm_go_script.Reports.Validation.{
  global_duplicate, invalid_totals, inconsistent_totals, inconsistent_protocol, unexpected_protocol,
  protocol_totals, inconsistent_mode, unexpected_mode, mode_totals, inconsistent_dimension,
  unexpected_dimension, dimension_totals, Expectation, no_expectation, expect_job, expect_jobs,
  check_map, validate_evidence, validate_report_dimensions,
}

abbrev pub assets_of : List Job → List String
assets_of js = map (λ j. j.asset_id) js

-- What the loop over the jobs leaves.
pub record Taken (jobs : List Job) (assets assets' : List String) : Type 0 where
  pub counted : length assets' ≡ length assets + length jobs
  pub fresh : (rest : List String) → Fresh assets' rest → Fresh assets (assets_of jobs ++ rest)

expect_jobs-Taken :
    (js : List Job) (e : Expectation) (assets : List String) {e' : Expectation}
    {assets' : List String}
    → expect_jobs js e assets ≡ ok (e', assets')
    → Taken js assets assets'
unfolding expect_jobs
expect_jobs-Taken [] e assets {e'} {assets'} h =
    let same : assets ≡ assets' = ap (λ p. p.1) (ok-injective h) in
    record {
      counted = omega (arith, ap length same);
      fresh = λ rest f. subst (λ a. Fresh a rest) (sym same) f;
    }
expect_jobs-Taken (j ∷ js) e assets h =
    let new = guard-eq-ok (not (mem j.asset_id assets)) global_duplicate _ h in
    let later = expect_jobs-Taken js (expect_job j e) (j.asset_id ∷ assets) new.1 in
    record {
      counted = omega (arith, later.counted);
      fresh = λ rest f.
          Fresh-cons j.asset_id assets (assets_of js ++ rest) (ground (arith, new.0))
            (later.fresh rest f);
    }

pub both : (a b : Bool) → (a && b) ≡ true → (a ≡ true) × (b ≡ true)
both true true h = (refl, refl)
both true false h = cc
both false b h = cc

-- A report that has passed.
pub record Passed (require : Bool) (jobs : List Job) (totals : Counts)
    (assets assets' : List String) : Type 0 where
  pub taken : Taken jobs assets assets'
  pub planned : totals.planned ≡ length jobs
  pub valid : valid_counts totals ≡ true
  pub succeeded : (not require || all_succeeded totals) ≡ true

pub validate_report_dimensions-Passed :
    (fl : Floats) (now : Time) (r : RunReport fl.Float) (jobs : List Job) (assets : List String)
    (require : Bool) {e : Expectation} {assets' : List String}
    → validate_report_dimensions fl now r jobs assets require ≡ ok (e, assets')
    → Passed require jobs r.totals assets assets'
unfolding validate_report_dimensions
validate_report_dimensions-Passed fl now r jobs assets require h =
    let (got, expected, after) = >>=-eq-ok (expect_jobs jobs no_expectation assets) _ h in
    let counted =
      guard-eq-ok (r.totals.planned == length jobs && valid_counts r.totals) invalid_totals _
        after in
    let fits = both (r.totals.planned == length jobs) (valid_counts r.totals) counted.0 in
    let succeeded =
      guard-eq-ok (not require || all_succeeded r.totals) inconsistent_totals _ counted.1 in
    let (u, by_protocol, protocols) =
      >>=-eq-ok
        (check_map inconsistent_protocol unexpected_protocol protocol_totals
          got.0.planned_by_protocol r.protocols r.totals)
        _ succeeded.1 in
    let (v, by_mode, modes) =
      >>=-eq-ok
        (check_map inconsistent_mode unexpected_mode mode_totals got.0.planned_by_mode r.modes
          r.totals)
        _ protocols in
    let (w, by_dimension, dimensions) =
      >>=-eq-ok
        (check_map inconsistent_dimension unexpected_dimension dimension_totals
          got.0.planned_by_dimension r.dimensions r.totals)
        _ modes in
    let (x, evidence, same) = >>=-eq-ok (validate_evidence fl now r got.0 require) _ dimensions in
    record {
      taken = expect_jobs-Taken jobs no_expectation assets (expected ∙ ap ok (ok-injective same));
      planned = (==_iff r.totals.planned (length jobs)).0 fits.0;
      valid = fits.1;
      succeeded = succeeded.0;
    }
