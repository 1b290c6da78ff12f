-- ===== src/Config/Expand/Total.antt =====
-- The number of jobs of `Config.Expand` against `total`.
use text.Mathlib.TextEquality.{eq_iff}
use emm_go_script.Common.{
  Bool-cases, length, length-append, All, Distinct, ok, >>=-eq-ok, guard-eq-ok, get_or, string_eq,
  nat_eq, ◌==◌, ==_iff, mem, lookup, Int64, int_mod, is_neg, add_int, ℕ, zero, suc, ◌+◌, ◌<◌, ◌≡◌,
  refl, ◌≢◌, inl, inr, true, not, none, List, [], ◌∷◌, ◌++◌, map, arith,
}
use emm_go_script.Config.{Protocol, ExecutionMode, direct, browser, protocol_order, Config, Job}
use emm_go_script.Config.Expand.{
  check_counts, count_of, modes_of, new_job, add_jobs, add_protocol, add_protocols, expand,
}
use emm_go_script.Config.Expand.Tally.{modes_of-sum, protocol_order-Distinct, expand-parts}

length-add_jobs :
    (n : ℕ) (p : Protocol) (m : ExecutionMode) (jobs : List Job)
    → length (add_jobs n p m jobs) ≡ length jobs + n
unfolding add_jobs
length-add_jobs zero p m jobs = omega arith
length-add_jobs (suc n) p m jobs = omega (
  arith,
  length-add_jobs n p m (jobs ++ new_job (length jobs) p m ∷ []),
  length-append jobs (new_job (length jobs) p m ∷ []),
)

-- The counts fit an `int`, as every `int` does.
abbrev pub FitsInt : List (Protocol × Int64) → Type 0
FitsInt m = All (λ e. e.1 < int_mod) m

lookup_fits :
    (p : Protocol) (m : List (Protocol × Int64)) → FitsInt m → get_or (lookup p m) 0 < int_mod
unfolding lookup
lookup_fits p [] h = omega arith
lookup_fits p ((q, v) ∷ m) h = ground (arith, lookup_fits p m h.1)

length-add_protocol :
    (c : Config) (p : Protocol) (jobs : List Job) {out : List Job}
    → FitsInt c.protocols
    → add_protocol c p jobs ≡ ok out
    → length out ≡ length jobs + count_of c p
unfolding add_protocol count_of
length-add_protocol c p jobs {out} fits e = elim (Bool-cases (count_of c p == 0)) [
  | inl z ↦ ground arith
  | inr z ↦
      let (m, e1, e') = >>=-eq-ok (modes_of c p (count_of c p)) _ (rw (z, add_protocol) at e) in
      let b = add_jobs m.browser_count p browser jobs in
      ground (
        arith,
        modes_of-sum c p (lookup_fits p c.protocols fits) e1,
        length-add_jobs m.browser_count p browser jobs,
        length-add_jobs m.direct_count p direct b,
      )
]

-- The counts that the protocols of a list have in the map `m`.
sum_counts : List (Protocol × Int64) → List Protocol → ℕ
sum_counts m [] = 0
sum_counts m (p ∷ ps) = get_or (lookup p m) 0 + sum_counts m ps

length-add_protocols :
    (c : Config) (ps : List Protocol) (jobs : List Job) {out : List Job}
    → FitsInt c.protocols
    → add_protocols c ps jobs ≡ ok out
    → length out ≡ length jobs + sum_counts c.protocols ps
unfolding add_protocols sum_counts count_of
length-add_protocols c [] jobs fits e = ground arith
length-add_protocols c (p ∷ ps) jobs {out} fits e =
    let (jobs', e', e2) = >>=-eq-ok (add_protocol c p jobs) _ e in
    omega (arith, length-add_protocol c p jobs fits e', length-add_protocols c ps jobs' fits e2)

-- The entries of a map, added up without wrap-around.
unfoldable pub sum_entries : List (Protocol × Int64) → ℕ
sum_entries [] = 0
sum_entries ((p, v) ∷ m) = v + sum_entries m

abbrev keys : List (Protocol × Int64) → List Protocol
keys = map (λ e. e.0)

check_counts-known :
    (m : List (Protocol × Int64)) (acc : Int64) {out : Int64}
    → check_counts m acc ≡ ok out
    → All (λ k. mem k protocol_order ≡ true) (keys m)
unfolding check_counts
check_counts-known [] acc e = tt
check_counts-known ((p, v) ∷ m) acc e =
    let (_, e1) = guard-eq-ok (not (is_neg v)) _ _ e in
    let (k, e2) = guard-eq-ok (mem p protocol_order) _ _ e1 in
    (k, check_counts-known m (add_int acc v) e2)

check_counts-sum :
    (m : List (Protocol × Int64)) (acc : Int64) {out : Int64}
    → check_counts m acc ≡ ok out
    → acc + sum_entries m < int_mod
    → out ≡ acc + sum_entries m
unfolding check_counts sum_entries
check_counts-sum [] acc e h = ground arith
check_counts-sum ((p, v) ∷ m) acc e h =
    let (_, e1) = guard-eq-ok (not (is_neg v)) _ _ e in
    let (k, e2) = guard-eq-ok (mem p protocol_order) _ _ e1 in
    let step : add_int acc v ≡ acc + v = ground arith in
    omega (arith, step, check_counts-sum m (add_int acc v) e2)

lookup-absent :
    (k : Protocol) (m : List (Protocol × Int64)) → All (λ q. k ≢ q) (keys m) → lookup k m ≡ none
unfolding lookup
lookup-absent k [] h = refl
lookup-absent k ((q, v) ∷ m) h = ground (arith, eq_iff q k, h.0, lookup-absent k m h.1)

-- A new entry adds its value where its key stands in the list, once.
sum_counts-skip :
    (k : Protocol) (v : Int64) (m : List (Protocol × Int64)) (ps : List Protocol)
    → All (λ q. k ≢ q) ps
    → sum_counts ((k, v) ∷ m) ps ≡ sum_counts m ps
unfolding sum_counts lookup
sum_counts-skip k v m [] h = refl
sum_counts-skip k v m (p ∷ ps) h = ground (arith, eq_iff k p, h.0, sum_counts-skip k v m ps h.1)

sum_counts-cons :
    (k : Protocol) (v : Int64) (m : List (Protocol × Int64)) (ps : List Protocol)
    → Distinct ps
    → mem k ps ≡ true
    → lookup k m ≡ none
    → sum_counts ((k, v) ∷ m) ps ≡ v + sum_counts m ps
unfolding sum_counts lookup mem
sum_counts-cons k v m [] d kn l = cc
sum_counts-cons k v m (p ∷ ps) d kn l = elim (Bool-cases (k == p)) [
  | inl s ↦ let e = (==_iff k p).0 s in ground (arith, eq_iff k p, sum_counts-skip p v m ps d.0)
  | inr n ↦ ground (arith, eq_iff k p, sum_counts-cons k v m ps d.1)
]

sum_counts-nil : (ps : List Protocol) → sum_counts [] ps ≡ 0
unfolding sum_counts lookup
sum_counts-nil [] = refl
sum_counts-nil (p ∷ ps) = omega (arith, sum_counts-nil ps)

sum_counts-sum_entries :
    (m : List (Protocol × Int64))
    → All (λ k. mem k protocol_order ≡ true) (keys m)
    → Distinct (keys m)
    → sum_counts m protocol_order ≡ sum_entries m
unfolding sum_entries
sum_counts-sum_entries [] kn d = sum_counts-nil protocol_order
sum_counts-sum_entries ((k, v) ∷ m) kn d = omega (
  arith,
  sum_counts-cons k v m protocol_order protocol_order-Distinct kn.0 (lookup-absent k m d.0),
  sum_counts-sum_entries m kn.1 d.1,
)

-- Where no key stands twice in the protocol map (as in any map), the counts are `int`s and their sum does not wrap
-- around, `expand` makes exactly `total` jobs.
pub expand-total :
    (c : Config) {jobs : List Job}
    → Distinct (map (λ e. e.0) c.protocols)
    → FitsInt c.protocols
    → sum_entries c.protocols < int_mod
    → expand c ≡ ok jobs
    → length jobs ≡ c.total
expand-total c {jobs} d fits small e = omega (
  arith,
  length-add_protocols c protocol_order [] fits (expand-parts c e).1,
  check_counts-sum c.protocols 0 (expand-parts c e).0,
  sum_counts-sum_entries c.protocols (check_counts-known c.protocols 0 (expand-parts c e).0) d,
)
