-- ===== src/Reports/Tracker/Balanced.antt =====
-- The sums of a tracker's counts, over the calls that lead to it (report.go).
use emm_go_script.Common.{
  Bool-cases, ok, guard-eq-ok, ok-injective, string_eq, nat_eq, ◌==◌, mem, String, ◌≡◌, refl, sym,
  ap, ◌∙◌, subst, inl, inr, not, ◌||◌, Option, none, some, List, [], ◌∷◌,
}
use emm_go_script.Config.{Protocol, direct, browser, Job}
use emm_go_script.Reports.Counts.{Counts, no_counts, add_counts, derived}
use emm_go_script.Reports.Counts.Sums.{
  CountsMap, IsBounded, add_counts-IsBounded, derived-add_counts, total_from, total,
  total-update_at,
}
use emm_go_script.Reports.Evidence.{Floats, Observed}
use emm_go_script.Reports.Tracker.Changes.{
  IsChange, IsBoundedMap, plan_one-IsChange, use_one-IsChange, repeat_one-IsChange,
  start_one-IsChange, fail_start-IsChange, fail_runtime-IsChange, IsCounted, IsCounted-IsChange,
  no_counts-IsBounded, update_at-IsBounded,
}
use emm_go_script.Reports.Tracker.{
  RunReport, Tracker, build_version_required, missing_asset_binding, missing_execution_mode,
  duplicate_asset, dimension_key, plan_one, derived_map, increment, ensure_keys, plan_jobs,
  empty_tracker, new_tracker, note_use, count_use, noted_tracker, attempt, started_job,
  record_failure, job_start_failed, job_runtime_failed, record_observation, snapshot,
}

-- The totals are the totals of each of the maps.
pub record Balanced {F : Type 0} (t : Tracker F) : Type 0 where
  pub by_protocol : t.totals ≡ total t.protocols
  pub by_mode : t.totals ≡ total t.modes
  pub by_dimension : t.totals ≡ total t.dimensions

record Inv {F : Type 0} (t : Tracker F) : Type 0 where
  balanced : Balanced t
  protocols_bounded : IsBoundedMap t.protocols
  modes_bounded : IsBoundedMap t.modes
  dimensions_bounded : IsBoundedMap t.dimensions

increment-Inv :
    (fl : Floats) {f : Counts → Counts} (j : Job) (t : Tracker fl.Float)
    → IsChange f
    → Inv t
    → Inv (increment fl j f t)
unfolding increment
increment-Inv fl {f} j t g h = record {
  balanced = record {
    by_protocol =
        ap f h.balanced.by_protocol ∙ sym (total-update_at f j.protocol t.protocols g.shifts);
    by_mode = ap f h.balanced.by_mode ∙ sym (total-update_at f j.mode t.modes g.shifts);
    by_dimension =
        ap f h.balanced.by_dimension
        ∙ sym (total-update_at f (dimension_key j.protocol j.mode) t.dimensions g.shifts);
  };
  protocols_bounded = update_at-IsBounded j.protocol t.protocols g h.protocols_bounded;
  modes_bounded = update_at-IsBounded j.mode t.modes g h.modes_bounded;
  dimensions_bounded =
      update_at-IsBounded (dimension_key j.protocol j.mode) t.dimensions g h.dimensions_bounded;
}

-- Changes outside the counts.
same_counts-Inv :
    {F : Type 0} {t u : Tracker F}
    → Inv t
    → t.totals ≡ u.totals
    → t.protocols ≡ u.protocols
    → t.modes ≡ u.modes
    → t.dimensions ≡ u.dimensions
    → Inv u
same_counts-Inv h et ep em ed = record {
  balanced = record {
    by_protocol = sym et ∙ h.balanced.by_protocol ∙ ap total ep;
    by_mode = sym et ∙ h.balanced.by_mode ∙ ap total em;
    by_dimension = sym et ∙ h.balanced.by_dimension ∙ ap total ed;
  };
  protocols_bounded = subst IsBoundedMap ep h.protocols_bounded;
  modes_bounded = subst IsBoundedMap em h.modes_bounded;
  dimensions_bounded = subst IsBoundedMap ed h.dimensions_bounded;
}

plan_jobs-Inv :
    (fl : Floats) (js : List Job) (planned : List String) (t : Tracker fl.Float)
    {u : Tracker fl.Float}
    → Inv t
    → plan_jobs fl js planned t ≡ ok u
    → Inv u
unfolding plan_jobs
plan_jobs-Inv fl [] planned t h e = subst Inv (ok-injective e) h
plan_jobs-Inv fl (j ∷ js) planned t h e =
    let bound =
      guard-eq-ok (not (j.asset_id == "" || j.account_id == "")) (missing_asset_binding j.id) _ e in
    let moded =
      guard-eq-ok (j.mode == direct || j.mode == browser) (missing_execution_mode j.id) _ bound.1 in
    let fresh = guard-eq-ok (not (mem j.asset_id planned)) duplicate_asset _ moded.1 in
    plan_jobs-Inv fl js (j.asset_id ∷ planned) (ensure_keys fl j (increment fl j plan_one t))
      (same_counts-Inv (increment-Inv fl j t plan_one-IsChange h) (unfold ensure_keys in refl)
        (unfold ensure_keys in refl) (unfold ensure_keys in refl) (unfold ensure_keys in refl))
      fresh.1

empty_tracker-Inv :
    (fl : Floats) (run_id build_version : String) → Inv (empty_tracker fl run_id build_version)
unfolding total_from
empty_tracker-Inv fl run_id build_version = record {
  balanced = record { by_protocol = refl; by_mode = refl; by_dimension = refl };
  protocols_bounded = tt;
  modes_bounded = tt;
  dimensions_bounded = tt;
}

count_use-Inv : (fl : Floats) (j : Job) (t : Tracker fl.Float) → Inv t → Inv (count_use fl j t)
unfolding count_use
count_use-Inv fl j t h = elim (Bool-cases (mem j.asset_id t.used)) [
  | inl e ↦ rw e (increment-Inv fl j t repeat_one-IsChange h)
  | inr e ↦ rw e (
      increment-Inv fl j (record t { used = j.asset_id ∷ t.used }) use_one-IsChange
        (same_counts-Inv h refl refl refl refl))
]

-- The trackers that calls lead to, from a new one on.
pub data Reach (fl : Floats) (to_lower : String → String) : Tracker fl.Float → Type 0 where
  created :
      {t : Tracker fl.Float} (run_id build_version : String) (jobs : List Job)
      → new_tracker fl run_id build_version jobs ≡ ok t
      → Reach fl to_lower t
  attempted :
      {t u : Tracker fl.Float} (j : Job)
      → Reach fl to_lower t
      → attempt fl j t ≡ some u
      → Reach fl to_lower u
  started :
      {t : Tracker fl.Float} (j : Job)
      → Reach fl to_lower t
      → Reach fl to_lower (started_job fl j t)
  not_started :
      {t : Tracker fl.Float} (j : Job) (failure : Option String)
      → Reach fl to_lower t
      → Reach fl to_lower (job_start_failed fl to_lower j failure t)
  ended :
      {t : Tracker fl.Float} (j : Job) (failure : Option String)
      → Reach fl to_lower t
      → Reach fl to_lower (job_runtime_failed fl to_lower j failure t)
  counted :
      {t : Tracker fl.Float} {f : Counts → Counts} (j : Job)
      → Reach fl to_lower t
      → IsCounted f
      → Reach fl to_lower (increment fl j f t)
  recorded :
      {t : Tracker fl.Float} (j : Job) (o : Observed)
      → Reach fl to_lower t
      → Reach fl to_lower (record_observation fl j o t)

noted_tracker-Inv :
    (fl : Floats) (t : Tracker fl.Float) (noted : Option (List (Protocol × List String)))
    {u : Tracker fl.Float}
    → Inv t
    → noted_tracker fl t noted ≡ some u
    → Inv u
unfolding noted_tracker
noted_tracker-Inv fl t none h e = cc
noted_tracker-Inv fl t (some noted) {u} h e =
    let same : record t { used_by_protocol = noted } ≡ u = cc in
    same_counts-Inv h (ap (λ v. v.totals) same) (ap (λ v. v.protocols) same)
      (ap (λ v. v.modes) same) (ap (λ v. v.dimensions) same)

Reach-Inv :
    {fl : Floats} {to_lower : String → String} {t : Tracker fl.Float} → Reach fl to_lower t → Inv t
unfolding new_tracker attempt started_job job_start_failed job_runtime_failed record_failure
    record_observation
Reach-Inv {fl} (created run_id build_version jobs e) =
    let named = guard-eq-ok (not (build_version == "")) build_version_required _ e in
    plan_jobs-Inv fl jobs [] (empty_tracker fl run_id build_version)
      (empty_tracker-Inv fl run_id build_version) named.1
Reach-Inv {fl} (attempted {t} j r e) =
    noted_tracker-Inv fl (count_use fl j t) (note_use fl j.protocol j.asset_id t.used_by_protocol)
      (count_use-Inv fl j t (Reach-Inv r)) e
Reach-Inv {fl} (started {t} j r) = increment-Inv fl j t start_one-IsChange (Reach-Inv r)
Reach-Inv {fl} (not_started {t} j failure r) =
    same_counts-Inv (increment-Inv fl j t fail_start-IsChange (Reach-Inv r)) refl refl refl refl
Reach-Inv {fl} (ended {t} j failure r) =
    same_counts-Inv (increment-Inv fl j t fail_runtime-IsChange (Reach-Inv r)) refl refl refl refl
Reach-Inv {fl} (counted {t} j r g) = increment-Inv fl j t (IsCounted-IsChange g) (Reach-Inv r)
Reach-Inv {fl} (recorded j o r) = same_counts-Inv (Reach-Inv r) refl refl refl refl

-- In every tracker that calls lead to, the totals are the sums of the counts of the protocols, of the modes and of the
-- dimensions, whatever jobs the calls were made for.
pub Reach-Balanced :
    {fl : Floats} {to_lower : String → String} {t : Tracker fl.Float}
    → Reach fl to_lower t
    → Balanced t
Reach-Balanced r = (Reach-Inv r).balanced

total_from-derived_map :
    (c : Counts) (m : CountsMap String)
    → IsBounded c
    → IsBoundedMap m
    → total_from (derived c) (derived_map m) ≡ derived (total_from c m)
unfolding total_from derived_map
total_from-derived_map c [] b h = refl
total_from-derived_map c ((k, d) ∷ m) b h =
    ap (λ x. total_from x (derived_map m)) (sym (derived-add_counts c d b h.0))
    ∙ total_from-derived_map (add_counts c d) m (add_counts-IsBounded c d) h.1

total-derived_map :
    (m : CountsMap String) → IsBoundedMap m → total (derived_map m) ≡ derived (total m)
unfolding derived
total-derived_map m h = total_from-derived_map no_counts m no_counts-IsBounded h

-- The entries of each of a report's maps sum up to its totals.
pub record SumsUp {F : Type 0} (r : RunReport F) : Type 0 where
  pub protocols : total r.protocols ≡ r.totals
  pub modes : total r.modes ≡ r.totals
  pub dimensions : total r.dimensions ≡ r.totals

-- In the report of a tracker that calls lead to, all the entries of each of the three maps sum up to the totals, with the counts
-- that `Snapshot` derives for each entry and for the totals.
pub snapshot-SumsUp :
    {fl : Floats} {to_lower : String → String} {t : Tracker fl.Float} (status : String)
    → Reach fl to_lower t
    → SumsUp (snapshot fl status t)
unfolding snapshot
snapshot-SumsUp {t = t} status r =
    let h = Reach-Inv r in
    record {
      protocols =
          total-derived_map t.protocols h.protocols_bounded
          ∙ ap derived (sym h.balanced.by_protocol);
      modes = total-derived_map t.modes h.modes_bounded ∙ ap derived (sym h.balanced.by_mode);
      dimensions =
          total-derived_map t.dimensions h.dimensions_bounded
          ∙ ap derived (sym h.balanced.by_dimension);
    }
