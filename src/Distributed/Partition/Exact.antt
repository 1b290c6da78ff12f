-- ===== src/Distributed/Partition/Exact.antt =====
-- The jobs that a partition hands out (partition.go).
use mathlib.Core.List.{Perm}
use mathlib.Core.List.Perm
use mathlib.Core.List.{perm_middle, perm_append_comm}
use emm_go_script.Common.{
  Option-cases, length, ok, ok-injective, ℕ, zero, suc, ◌+◌, ◌%◌, ◌<◌, String, ◌≡◌, refl, sym, ap,
  subst, inl, inr, Bool, true, false, List, [], ◌∷◌, ◌++◌, map, append-nil, append_assoc, arith,
}
use emm_go_script.Common.Sorting.{sort_by, sort_by-perm}
use emm_go_script.Config.{Job}
use emm_go_script.Distributed.Partition.{
  Agent, normal, classify, Slot, empty_slot, find_slot, take_job, put_job, assign, by_support,
  partition,
}
use emm_go_script.Distributed.Partition.Slots.{
  fits_at-lt, find_slot-fits_at, classify-cons, entries, partition-parts,
}

-- The jobs of all the slots.
held : List Slot → List Job
held [] = []
held (s ∷ ss) = s.jobs ++ held ss

-- The jobs of all the agents.
pub all_jobs : List (String × List Job) → List Job
all_jobs [] = []
all_jobs ((id, js) ∷ rest) = js ++ all_jobs rest

put_job-perm :
    (b : Bool) (j : Job) (slots : List Slot) (i : ℕ)
    → i < length slots
    → Perm (held (put_job b j slots i)) (j ∷ held slots)
unfolding held put_job take_job
put_job-perm b j [] i h = elim h [ ]
put_job-perm b j (s ∷ ss) zero h =
    rw (append_assoc s.jobs (j ∷ []) (held ss)) (perm_middle s.jobs (held ss))
put_job-perm b j (s ∷ ss) (suc i) h =
    Perm.trans (Perm.append_left s.jobs (put_job-perm b j ss i (omega arith)))
      (perm_middle s.jobs (held ss))

assign-perm :
    (b : Bool) (js : List Job) (cursor : ℕ) (slots : List Slot) {out : List Slot}
    → assign b js cursor slots ≡ ok out
    → Perm (held out) (js ++ held slots)
unfolding assign
assign-perm b [] cursor slots e =
    subst (λ o. Perm (held o) (held slots)) (ok-injective e) (Perm.refl (held slots))
assign-perm b (j ∷ js) cursor slots {out} e =
    elim (Option-cases (find_slot b j.protocol slots cursor 0 (length slots))) [
      | inl n ↦ absurd (ground arith)
      | inr (i, f) ↦
          Perm.trans
            (assign-perm b js ((i + 1) % length slots) (put_job b j slots i) (rw (f, assign) at e))
            (Perm.trans
              (Perm.append_left js (
                put_job-perm b j slots i (
                  fits_at-lt b j.protocol slots i
                    (find_slot-fits_at b j.protocol slots cursor 0 (length slots) f))))
              (perm_middle js (held slots)))
    ]

classify-perm :
    (js : List Job) (sa sc : List String) {out : List Job × List Job}
    → classify js sa sc ≡ ok out
    → Perm (out.0 ++ out.1) js
unfolding classify
classify-perm [] sa sc e = subst (λ o. Perm (o.0 ++ o.1) []) (ok-injective e) (Perm.refl [])
classify-perm (j ∷ js) sa sc e =
    let (rest, e', c) = classify-cons j js sa sc e in
    let ih = Perm.cons j (classify-perm js (j.asset_id ∷ sa) (j.account_id ∷ sc) e') in
    elim c [
      | inl (m, p) ↦ subst (λ o. Perm (o.0 ++ o.1) (j ∷ js)) (sym p) ih
      | inr (m, p) ↦
          subst (λ o. Perm (o.0 ++ o.1) (j ∷ js)) (sym p)
            (Perm.trans (perm_middle rest.0 rest.1) ih)
    ]

held-empty : (agents : List Agent) → held (map empty_slot agents) ≡ []
unfolding held empty_slot
held-empty [] = refl
held-empty (a ∷ rest) = held-empty rest

all_jobs-entries : (slots : List Slot) → all_jobs (entries slots) ≡ held slots
unfolding all_jobs held
all_jobs-entries [] = refl
all_jobs-entries (s ∷ ss) = ap (◌++◌ s.jobs) (all_jobs-entries ss)

-- A successful partition gives the agents exactly the given jobs: none is lost, repeated or changed.
pub partition-perm :
    (jobs : List Job) (agents : List Agent) {parts : List (String × List Job)}
    → partition jobs agents ≡ ok parts
    → Perm (all_jobs parts) jobs
partition-perm jobs agents {parts} e =
    let (split, slots, slots', ec, ed, eb, ep) = partition-parts jobs agents e in
    let less = by_support (map normal agents) in
    let direct_part : Perm (held slots) split.0 =
      Perm.trans (assign-perm false (sort_by less split.0) 0 _ ed)
        (rw (held-empty (map normal agents), append-nil) (sort_by-perm less split.0)) in
    let both : Perm (held slots') jobs = Perm.trans (assign-perm true split.1 0 slots eb) (
      Perm.trans (Perm.append_left split.1 direct_part)
        (Perm.trans (perm_append_comm split.1 split.0) (classify-perm jobs [] [] ec))) in
    subst (λ ps. Perm (all_jobs ps) jobs) ep (rw all_jobs-entries both)
