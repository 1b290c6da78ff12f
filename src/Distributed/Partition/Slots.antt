-- ===== src/Distributed/Partition/Slots.antt =====
-- The steps of `Partition`: what `normalize`, `classify` and a placed job do.
use text.Mathlib.TextEquality.{eq_iff}
use emm_go_script.Common.Sorting.{sort_by}
use emm_go_script.Common.{
  Option-cases, length, All, ok, >>=-eq-ok, guard-eq-ok, ok-injective, ◌==◌, nat_eq, string_eq, mem,
  lt_int, ℕ, zero, suc, ◌+◌, ◌%◌, ◌<◌, String, ◌≡◌, sym, ◌∙◌, subst, ◌⊎◌, inl, inr, Bool, true,
  false, not, ◌&&◌, ◌||◌, some, List, [], ◌∷◌, map, arith,
}
use emm_go_script.Config.{Protocol, direct, browser, Job}
use emm_go_script.Distributed.Partition.{
  Agent, invalid_agent, missing_binding, unsupported_mode, duplicate_asset, duplicate_account,
  Totals, normal, is_invalid, add_totals, normalize, file_job, classify, Slot, empty_slot, fits_at,
  find_slot, put_job, assign, by_support, partition,
}

pub normalize-map :
    (agents : List Agent) (seen : List String) (t : Totals) {out : List Agent} {t' : Totals}
    → normalize agents seen t ≡ ok (out, t')
    → out ≡ map normal agents
unfolding normalize
normalize-map [] seen t e = ground arith
normalize-map (a ∷ rest) seen t e =
    let (_, e1) = guard-eq-ok (not (is_invalid a seen)) invalid_agent _ e in
    let ((tail, t2), e2, e3) =
      >>=-eq-ok (normalize rest (a.id ∷ seen) (add_totals t (normal a))) _ e1 in
    ground
      (arith, normalize-map rest (a.id ∷ seen) (add_totals t (normal a)) {out = tail} {t' = t2})

-- An index that passes the tests of a scan is one of the list's.
pub fits_at-lt :
    (b : Bool) (p : Protocol) (slots : List Slot) (i : ℕ)
    → fits_at b p slots i ≡ true
    → i < length slots
unfolding fits_at
fits_at-lt b p [] i h = cc
fits_at-lt b p (s ∷ ss) zero h = omega arith
fits_at-lt b p (s ∷ ss) (suc i) h = omega (arith, fits_at-lt b p ss i h)

pub find_slot-fits_at :
    (b : Bool) (p : Protocol) (slots : List Slot) (cursor checked rounds : ℕ) {i : ℕ}
    → find_slot b p slots cursor checked rounds ≡ some i
    → fits_at b p slots i ≡ true
unfolding find_slot
find_slot-fits_at b p slots cursor checked zero h = cc
find_slot-fits_at b p slots cursor checked (suc rounds) {i} h =
    ground (arith, find_slot-fits_at b p slots cursor (checked + 1) rounds {i = i})

-- A rule for `assign`: what each placed job keeps, the whole assignment keeps.
module _ {ℓ} (P : List Slot → Type ℓ) (b : Bool) (Q : Job → Type 0)
    (keep : (j : Job) (slots : List Slot) (i : ℕ)
      → Q j
      → fits_at b j.protocol slots i ≡ true
      → P slots
      → P (put_job b j slots i)) where
  pub assign_inv :
      (js : List Job) (cursor : ℕ) (slots : List Slot) {out : List Slot}
      → All Q js
      → assign b js cursor slots ≡ ok out
      → P slots
      → P out
  unfolding assign
  assign_inv [] cursor slots q e h = subst P (ok-injective e) h
  assign_inv (j ∷ js) cursor slots {out} q e h =
      elim (Option-cases (find_slot b j.protocol slots cursor 0 (length slots))) [
        | inl n ↦ absurd (ground arith)
        | inr (i, f) ↦
            assign_inv js ((i + 1) % length slots) (put_job b j slots i) q.1 (rw (f, assign) at e) (
              keep j slots i q.0 (find_slot-fits_at b j.protocol slots cursor 0 (length slots) f) h)
      ]

file_job_cases :
    (j : Job) (rest : List Job × List Job)
    → (j.mode == direct || j.mode == browser) ≡ true
    → (j.mode ≡ direct) × (file_job j rest ≡ (j ∷ rest.0, rest.1))
      ⊎ (j.mode ≡ browser) × (file_job j rest ≡ (rest.0, j ∷ rest.1))
unfolding file_job
file_job_cases j rest h = ground (arith, eq_iff j.mode direct, eq_iff j.mode browser)

-- A job that passes `classify` goes to the front of the list of its mode.
pub classify-cons :
    (j : Job) (js : List Job) (sa sc : List String) {out : List Job × List Job}
    → classify (j ∷ js) sa sc ≡ ok out
    → (rest : List Job × List Job) × (classify js (j.asset_id ∷ sa) (j.account_id ∷ sc) ≡ ok rest)
      × ((j.mode ≡ direct) × (out ≡ (j ∷ rest.0, rest.1))
          ⊎ (j.mode ≡ browser) × (out ≡ (rest.0, j ∷ rest.1)))
unfolding classify
classify-cons j js sa sc {out} e =
    let (_, e1) =
      guard-eq-ok (not (j.asset_id == "" || j.account_id == "")) (missing_binding j.id) _ e in
    let (_, e2) = guard-eq-ok (not (mem j.asset_id sa)) duplicate_asset _ e1 in
    let (_, e3) = guard-eq-ok (not (mem j.account_id sc)) duplicate_account _ e2 in
    let (m, e4) =
      guard-eq-ok (j.mode == direct || j.mode == browser) (unsupported_mode j.id) _ e3 in
    let (rest, e5, e6) = >>=-eq-ok (classify js (j.asset_id ∷ sa) (j.account_id ∷ sc)) _ e4 in
    (
      rest,
      e5,
      elim (file_job_cases j rest m) [
        | inl (d, p) ↦ inl (d, sym (ok-injective e6) ∙ p)
        | inr (d, p) ↦ inr (d, sym (ok-injective e6) ∙ p)
      ],
    )

abbrev ByMode : List Job × List Job → Type 0
ByMode o = All (λ j. j.mode ≡ direct) o.0 × All (λ j. j.mode ≡ browser) o.1

-- `classify` splits the jobs by mode.
pub classify-modes :
    (js : List Job) (sa sc : List String) {out : List Job × List Job}
    → classify js sa sc ≡ ok out
    → All (λ j. j.mode ≡ direct) out.0 × All (λ j. j.mode ≡ browser) out.1
unfolding classify
classify-modes [] sa sc {out} e = subst ByMode (ok-injective e) (tt, tt)
classify-modes (j ∷ js) sa sc {out} e =
    let (rest, e', c) = classify-cons j js sa sc e in
    let (ds, bs) = classify-modes js (j.asset_id ∷ sa) (j.account_id ∷ sc) e' in
    elim c [
      | inl (m, p) ↦ subst ByMode (sym p) ((m, ds), bs)
      | inr (m, p) ↦ subst ByMode (sym p) (ds, (m, bs))
    ]

abbrev pub entries : List Slot → List (String × List Job)
entries = map (λ s. (s.agent.id, s.jobs))

-- What a successful `partition` has run.
pub partition-parts :
    (jobs : List Job) (agents : List Agent) {parts : List (String × List Job)}
    → partition jobs agents ≡ ok parts
    → (split : List Job × List Job) × (slots : List Slot) × (slots' : List Slot) × (classify jobs []
          []
        ≡ ok split)
      × (assign false
            (sort_by (by_support (map normal agents)) split.0)
            0
            (map empty_slot (map normal agents))
          ≡ ok slots)
      × (assign true split.1 0 slots ≡ ok slots')
      × (entries slots' ≡ parts)
unfolding partition
partition-parts jobs agents {parts} e =
    let start : Totals = record { total = 0; direct_total = 0; browser_total = 0 } in
    let ((ns, t), e1, e2) = >>=-eq-ok (normalize agents [] start) _ e in
    let (_, e3) = guard-eq-ok (not (lt_int t.total (length jobs))) _ _ e2 in
    let (split, e4, e5) = >>=-eq-ok (classify jobs [] []) _ e3 in
    let (_, e6) = guard-eq-ok (not (lt_int t.direct_total (length split.0))) _ _ e5 in
    let (_, e7) = guard-eq-ok (not (lt_int t.browser_total (length split.1))) _ _ e6 in
    let (_, e8) = guard-eq-ok (not (length ns == 0 && not (length jobs == 0))) _ _ e7 in
    let (slots, e9, e10) =
      >>=-eq-ok (assign false (sort_by (by_support ns) split.0) 0 (map empty_slot ns)) _ e8 in
    let (slots', e11, e12) = >>=-eq-ok (assign true split.1 0 slots) _ e10 in
    let en : ns ≡ map normal agents = normalize-map agents [] start e1 in
    (
      split,
      slots,
      slots',
      e4,
      subst (λ n. assign false (sort_by (by_support n) split.0) 0 (map empty_slot n) ≡ ok slots) en
          e9,
      e11,
      ok-injective e12,
    )
