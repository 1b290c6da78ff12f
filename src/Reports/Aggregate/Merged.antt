-- ===== src/Reports/Aggregate/Merged.antt =====
-- What the loop over the agents leaves, and the reports that `aggregateForBuild` gives (report.go).
use emm_go_script.Common.{
  length, length-append, Distinct, ok, >>=-eq-ok, or_fail, guard-eq-ok, ok-injective, string_eq,
  nat_eq, ◌==◌, ==_iff, lookup, Fresh, suc, ◌+◌, String, ◌≡◌, refl, sym, ap, ◌∙◌, subst, Bool, true,
  false, not, ◌&&◌, ◌||◌, List, [], ◌∷◌, ◌++◌, map, append-nil, append_assoc, arith,
}
use emm_go_script.Config.{Job}
use emm_go_script.Reports.Counts.{Counts, no_counts, add_counts, all_succeeded}
use emm_go_script.Reports.Evidence.{Time, Floats}
use emm_go_script.Reports.Tracker.{RunReport}
use emm_go_script.Reports.Validation.{
  report_count, missing_report, terminal_state, global_counts, validate_report_dimensions,
}
use emm_go_script.Reports.Validation.Passed.{
  assets_of, both, Passed, validate_report_dimensions-Passed,
}
use emm_go_script.Reports.Aggregate.{
  Aggregated, empty_report, merge_report, is_terminal, merge_agents, finalized_report,
  has_completed, aggregate, aggregate_for_build,
}

-- The counts of sessions that were all started and maintained.
pub record AllSucceeded (c : Counts) : Type 0 where
  pub used : c.used ≡ c.planned
  pub duplicates : c.duplicates ≡ 0
  pub unused : c.unused ≡ 0
  pub start_failures : c.start_failures ≡ 0
  pub runtime_failures : c.runtime_failures ≡ 0
  pub started : c.started ≡ c.planned
  pub maintained : c.maintained ≡ c.started

all_succeeded-AllSucceeded : (c : Counts) → all_succeeded c ≡ true → AllSucceeded c
unfolding all_succeeded
all_succeeded-AllSucceeded c h = ground arith

add_counts-AllSucceeded :
    (a b : Counts) → AllSucceeded a → AllSucceeded b → AllSucceeded (add_counts a b)
unfolding add_counts
add_counts-AllSucceeded a b h g = omega arith

pub all_assets : List (String × List Job) → List String
all_assets [] = []
all_assets ((agent, jobs) ∷ expected) = assets_of jobs ++ all_assets expected

pub names_of {κ} : {V : Type κ} → List (String × V) → List String
names_of m = map (λ e. e.0) m

module _ {F : Type 0} where
  -- What the loop makes of the result and the set of assets.
  record Joined (require : Bool) (expected : List (String × List Job)) (a a' : Aggregated F)
      (assets assets' : List String) : Type 0 where
    counted : length assets' ≡ length assets + length (all_assets expected)
    fresh : (rest : List String) → Fresh assets' rest → Fresh assets (all_assets expected ++ rest)
    names : names_of a'.agents ≡ names_of a.agents ++ names_of expected
    succeeded : require ≡ true → AllSucceeded a.report.totals → AllSucceeded a'.report.totals

  stop-Joined :
      (require : Bool) {a a' : Aggregated F} {assets assets' : List String}
      → a ≡ a'
      → assets ≡ assets'
      → Joined require [] a a' assets assets'
  unfolding all_assets names_of
  stop-Joined require {a} e same = record {
    counted = omega (arith, ap length same);
    fresh = λ rest f. subst (λ s. Fresh s rest) (sym same) f;
    names = ap (λ b. names_of b.agents) (sym e) ∙ sym (append-nil (names_of a.agents));
    succeeded = λ r h. subst (λ b. AllSucceeded b.report.totals) e h;
  }

required : (require s : Bool) → (not require || s) ≡ true → require ≡ true → s ≡ true
required true s h e = h
required false s h e = cc

map-append {ℓ κ} :
    {A : Type ℓ} {B : Type κ} (f : A → B) (xs ys : List A) → map f (xs ++ ys) ≡ map f xs ++ map f ys
map-append f [] ys = refl
map-append f (x ∷ xs) ys = ap (◌∷◌ (f x)) (map-append f xs ys)

length-assets_of : (js : List Job) → length (assets_of js) ≡ length js
length-assets_of [] = refl
length-assets_of (j ∷ js) = ap suc (length-assets_of js)

round-Joined :
    (fl : Floats) (require : Bool) (agent : String) (r : RunReport fl.Float) (jobs : List Job)
    (expected : List (String × List Job)) (a : Aggregated fl.Float) {a' : Aggregated fl.Float}
    {assets assets' assets'' : List String}
    → Passed require jobs r.totals assets assets'
    → Joined require expected (merge_report fl agent r a) a' assets' assets''
    → Joined require ((agent, jobs) ∷ expected) a a' assets assets''
unfolding all_assets names_of merge_report
round-Joined fl require agent r jobs expected a {assets = assets} {assets'} {assets''} p h =
    record {
      counted = omega (
        arith,
        p.taken.counted,
        h.counted,
        length-append (assets_of jobs) (all_assets expected),
        length-assets_of jobs,
      );
      fresh = λ rest f.
          subst (Fresh assets) (sym (append_assoc (assets_of jobs) (all_assets expected) rest))
            (p.taken.fresh (all_assets expected ++ rest) (h.fresh rest f));
      names =
          h.names
          ∙ ap (λ l. l ++ names_of expected) (map-append (λ e. e.0) a.agents ((agent, r) ∷ []))
          ∙ append_assoc (names_of a.agents) (agent ∷ []) (names_of expected);
      succeeded = λ e g. h.succeeded e (
          add_counts-AllSucceeded a.report.totals r.totals g (
            all_succeeded-AllSucceeded r.totals
              (required require (all_succeeded r.totals) p.succeeded e)));
    }

merge_agents-Joined :
    (fl : Floats) (now : Time) (accepts : RunReport fl.Float → Bool) (require : Bool)
    (reports : List (String × RunReport fl.Float)) (expected : List (String × List Job))
    (a : Aggregated fl.Float) (assets : List String) {a' : Aggregated fl.Float}
    {assets' : List String}
    → merge_agents fl now accepts require reports expected a assets ≡ ok (a', assets')
    → Joined require expected a a' assets assets'
unfolding merge_agents
merge_agents-Joined fl now accepts require reports [] a assets h =
    stop-Joined require (ap (λ p. p.0) (ok-injective h)) (ap (λ p. p.1) (ok-injective h))
merge_agents-Joined fl now accepts require reports ((agent, jobs) ∷ expected) a assets h =
    let (r, found, looked) = >>=-eq-ok (or_fail (lookup agent reports) missing_report) _ h in
    let accepted = guard-eq-ok (accepts r) terminal_state _ looked in
    let (got, validated, rest) =
      >>=-eq-ok (validate_report_dimensions fl now r jobs assets require) _ accepted.1 in
    round-Joined fl require agent r jobs expected a
      (validate_report_dimensions-Passed fl now r jobs assets require validated)
      (merge_agents-Joined fl now accepts require reports expected (merge_report fl agent r a) got.1
        rest)

-- What the merged report says where it is given, for the jobs that are expected of the agents.
pub record Complete {F : Type 0} (expected : List (String × List Job)) (a : Aggregated F)
    : Type 0 where
  pub distinct : Distinct (all_assets expected)
  pub names : names_of a.agents ≡ names_of expected
  pub planned : a.report.totals.planned ≡ length (all_assets expected)
  pub succeeded : AllSucceeded a.report.totals

no_counts-AllSucceeded : AllSucceeded no_counts
no_counts-AllSucceeded = omega arith

Joined-Complete :
    {F : Type 0} (expected : List (String × List Job)) (a a' : Aggregated F) (assets : List String)
    → a.agents ≡ []
    → a.report.totals ≡ no_counts
    → Joined true expected a a' [] assets
    → a'.report.totals.planned ≡ length assets
    → Complete expected a'
unfolding names_of
Joined-Complete expected a a' assets unnamed empty h p = record {
  distinct = subst Distinct (append-nil (all_assets expected)) (h.fresh [] (tt, tt)).1;
  names = h.names ∙ ap (λ l. names_of l ++ names_of expected) unnamed;
  planned = omega (arith, p, h.counted);
  succeeded = h.succeeded refl (subst AllSucceeded (sym empty) no_counts-AllSucceeded);
}

finalized_report-Complete :
    (fl : Floats) (expected : List (String × List Job)) (a : Aggregated fl.Float)
    → Complete expected a
    → Complete expected (finalized_report fl a)
unfolding finalized_report
finalized_report-Complete fl expected a h = record {
  distinct = h.distinct;
  names = h.names;
  planned = h.planned;
  succeeded = h.succeeded;
}

-- Where the controller gives a report for a build, no asset was given to two jobs (of one agent or of two), each agent that is
-- expected has reported, the totals plan one session for each job, and all of them were used, started and maintained, with no
-- duplicate and no failure.
pub aggregate_for_build-Complete :
    (fl : Floats) (now : Time) (run_id build_version : String) (expected : List (String × List Job))
    (reports : List (String × RunReport fl.Float)) {a : Aggregated fl.Float}
    → aggregate_for_build fl now run_id build_version expected reports ≡ ok a
    → Complete expected a
unfolding aggregate_for_build aggregate
aggregate_for_build-Complete fl now run_id build_version expected reports h =
    let blank : Aggregated fl.Float = record {
      report = empty_report fl run_id build_version "completed";
      agents = [];
    } in
    let counted = guard-eq-ok (length reports == length expected) report_count _ h in
    let (got, merged, rest) =
      >>=-eq-ok
        (merge_agents fl now (is_terminal fl run_id build_version (has_completed fl)) true reports
          expected blank [])
        _ counted.1 in
    let joined =
      merge_agents-Joined fl now (is_terminal fl run_id build_version (has_completed fl)) true
        reports expected blank [] merged in
    let tallied =
      guard-eq-ok
        (got.0.report.totals.planned == length got.1 && got.0.report.totals.duplicates == 0)
        global_counts _ rest in
    let sound =
      both (got.0.report.totals.planned == length got.1) (got.0.report.totals.duplicates == 0)
        tallied.0 in
    subst (Complete expected) (ok-injective tallied.1) (
      finalized_report-Complete fl expected got.0 (
        Joined-Complete expected blank got.0 got.1 refl refl joined
          ((==_iff got.0.report.totals.planned (length got.1)).0 sound.0)))
