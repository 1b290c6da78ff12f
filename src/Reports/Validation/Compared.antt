-- ===== src/Reports/Validation/Compared.antt =====
-- The comparison of a map's counts with the totals (report.go), where the map has exactly the planned keys.
use mathlib.Core.List.{Perm, foldr}
use mathlib.Core.List.Perm
use emm_go_script.Common.{
  Bool-cases, Option-cases, All, Distinct, ok, guard, ◌>>◌, guard-eq-ok, get_or, ok-injective,
  string_eq, nat_eq, ◌==◌, ==_iff, lookup, lookup-cons_self, Int64, String, ◌≡◌, refl, sym, ap, ◌∙◌,
  subst, ◌≢◌, inl, inr, true, false, ◌&&◌, some, List, [], ◌∷◌, map, arith,
}
use emm_go_script.Reports.Validation.{
  ReportError, inconsistent_protocol, inconsistent_mode, inconsistent_dimension, Expectation,
  check_entries,
}
use emm_go_script.Reports.Evidence.{Floats}
use emm_go_script.Reports.Tracker.{Tracker, snapshot}
use emm_go_script.Reports.Tracker.Balanced.{Reach, snapshot-SumsUp}
use emm_go_script.Reports.Counts.{Counts, no_counts, add_counts, valid_counts, same_counts}
use emm_go_script.Reports.Counts.Sums.{
  CountsMap, add_counts_comm, add_counts_assoc, add_counts-Shifts, total_from, total,
  total_from-shift,
}

abbrev pub keys : {V : Type 0} → List (String × V) → List String
keys m = map (λ e. e.0) m

entry : CountsMap String → String → Counts
entry m k = get_or (lookup k m) no_counts

abbrev step : CountsMap String → String → Counts → Counts
step m k c = add_counts c (entry m k)

Counts-IsSet : IsSet Counts
Counts-IsSet = hlevel

step_comm :
    (m : CountsMap String) (j k : String) (c : Counts)
    → step m j (step m k c) ≡ step m k (step m j c)
step_comm m j k c =
    add_counts_assoc c (entry m k) (entry m j)
    ∙ ap (add_counts c) (add_counts_comm (entry m k) (entry m j))
    ∙ sym (add_counts_assoc c (entry m j) (entry m k))

step-foldr :
    (m : CountsMap String) (k : String) (ks : List String) (c : Counts)
    → foldr (step m) (step m k c) ks ≡ step m k (foldr (step m) c ks)
step-foldr m k [] c = refl
step-foldr m k (j ∷ ks) c =
    ap (step m j) (step-foldr m k ks c) ∙ step_comm m j k (foldr (step m) c ks)

first_entry :
    (e : ReportError) (k : String) (n : Int64) (rest : List (String × Int64)) (m : CountsMap String)
    (c : Counts) {s : Counts}
    → check_entries e ((k, n) ∷ rest) m c ≡ ok s
    → (d : Counts) × (lookup k m ≡ some d) × (check_entries e rest m (add_counts c d) ≡ ok s)
unfolding check_entries
first_entry e k n rest m c {s} h = elim (Option-cases (lookup k m)) [
  | inl gone ↦ absurd (ground arith)
  | inr (d, there) ↦
      let h' : (guard (d.planned == n && valid_counts d) e
            >> check_entries e rest m (add_counts c d))
          ≡ ok s =
        rw there at h in
      (d, there, (guard-eq-ok (d.planned == n && valid_counts d) e _ h').1)
]

check_entries-foldr :
    (e : ReportError) (planned : List (String × Int64)) (m : CountsMap String) (c : Counts)
    {s : Counts}
    → check_entries e planned m c ≡ ok s
    → s ≡ foldr (step m) c (keys planned)
unfolding check_entries
check_entries-foldr e [] m c h = sym (ok-injective h)
check_entries-foldr e ((k, n) ∷ rest) m c h =
    let (d, there, h') = first_entry e k n rest m c h in
    let same : d ≡ entry m k = unfold entry in ap (λ o. get_or o no_counts) (sym there) in
    check_entries-foldr e rest m (add_counts c d) h'
    ∙ ap (λ x. foldr (step m) (add_counts c x) (keys rest)) same
    ∙ step-foldr m k (keys rest) c

differ : (k j : String) → k ≢ j → (k == j) ≡ false
differ k j h = elim (Bool-cases (k == j)) [ inl e ↦ absurd (h ((==_iff k j).0 e)) | inr e ↦ e ]

-- The entries of distinct keys are those of the map.
foldr-skip :
    (k : String) (d : Counts) (m : CountsMap String) (ks : List String) (c : Counts)
    → All (λ j. k ≢ j) ks
    → foldr (step ((k, d) ∷ m)) c ks ≡ foldr (step m) c ks
unfolding lookup entry
foldr-skip k d m [] c h = refl
foldr-skip k d m (j ∷ ks) c h =
    let other : (k == j) ≡ false = differ k j h.0 in rw (other, foldr-skip k d m ks c h.1) refl

foldr-keys :
    (m : CountsMap String) (c : Counts)
    → Distinct (keys m)
    → foldr (step m) c (keys m) ≡ total_from c m
unfolding total_from
foldr-keys [] c h = refl
foldr-keys ((k, d) ∷ m) c h =
    let same : entry ((k, d) ∷ m) k ≡ d =
      unfold entry in ap (λ o. get_or o no_counts) (lookup-cons_self k d m) in
    ap (λ x. add_counts (foldr (step ((k, d) ∷ m)) c (keys m)) x) same
    ∙ ap (λ x. add_counts x d) (foldr-skip k d m (keys m) c h.0 ∙ foldr-keys m c h.1)
    ∙ sym (total_from-shift (λ x. add_counts x d) (add_counts-Shifts d) c m)

check_entries-total :
    (e : ReportError) (planned : List (String × Int64)) (m : CountsMap String) {s : Counts}
    → Distinct (keys m)
    → Perm (keys planned) (keys m)
    → check_entries e planned m no_counts ≡ ok s
    → s ≡ total m
check_entries-total e planned m d p h =
    check_entries-foldr e planned m no_counts h
    ∙ Perm.foldr-eq Counts-IsSet (step m) (step_comm m) p no_counts
    ∙ foldr-keys m no_counts d

same_counts_refl : (c : Counts) → same_counts c c ≡ true
unfolding same_counts
same_counts_refl c = ground arith

-- The planned keys are those of the map, each once, and the loop over them has passed with a sum.
pub record Looped (e : ReportError) (planned : List (String × Int64)) (m : CountsMap String)
    (sum : Counts) : Type 0 where
  pub distinct : Distinct (keys m)
  pub same_keys : Perm (keys planned) (keys m)
  pub passed : check_entries e planned m no_counts ≡ ok sum

Looped-same_counts :
    {e : ReportError} {planned : List (String × Int64)} {m : CountsMap String} {sum totals : Counts}
    → Looped e planned m sum
    → total m ≡ totals
    → same_counts sum totals ≡ true
Looped-same_counts {e} {planned} {m} {sum} h t =
    subst (λ c. same_counts sum c ≡ true)
      (check_entries-total e planned m h.distinct h.same_keys h.passed ∙ t) (same_counts_refl sum)

-- The report of a tracker that calls lead to passes the controller's three comparisons of a sum with the totals, wherever the
-- keys that the controller plans are those of the report's map (each once, in any order) and its loop over them passes.
pub snapshot-same_counts :
    {fl : Floats} {to_lower : String → String} {t : Tracker fl.Float} (status : String)
    (x : Expectation) {by_protocol by_mode by_dimension : Counts}
    → Reach fl to_lower t
    → Looped inconsistent_protocol x.planned_by_protocol
        (snapshot fl status t).protocols
        by_protocol
    → Looped inconsistent_mode x.planned_by_mode (snapshot fl status t).modes by_mode
    → Looped inconsistent_dimension x.planned_by_dimension
        (snapshot fl status t).dimensions
        by_dimension
    → (same_counts by_protocol (snapshot fl status t).totals ≡ true)
      × (same_counts by_mode (snapshot fl status t).totals ≡ true)
      × (same_counts by_dimension (snapshot fl status t).totals ≡ true)
snapshot-same_counts status x r p m d =
    let sums = snapshot-SumsUp status r in
    (
      Looped-same_counts p sums.protocols,
      Looped-same_counts m sums.modes,
      Looped-same_counts d sums.dimensions,
    )
