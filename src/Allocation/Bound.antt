-- ===== src/Allocation/Bound.antt =====
-- What `Bind` gives, job by job (allocation.go).
use emm_go_script.Common.{
  if◌then◌else◌, Bool-cases, get_elem?, ok, >>=-eq-ok, or_fail, ok-injective, or_fail-eq-ok,
  string_eq, nat_eq, ◌==◌, ==_iff, lookup, ℕ, ◌+◌, ◌≡◌, refl, sym, ◌∙◌, subst, inl, inr, some, List,
  [], ◌∷◌, arith,
}
use emm_go_script.Config.{Protocol, Job}
use emm_go_script.Inventory.{ManifestAsset}
use emm_go_script.Allocation.{index_out_of_range, count_at, bump, bind_job, bind_jobs}
use emm_go_script.Allocation.Pools.{IsAssetFor}

-- `k` is the job `j` with the IDs of an asset of its protocol.
pub record IsBinding (assets : List ManifestAsset) (j k : Job) : Type 0 where
  pub chosen : ManifestAsset
  pub chosen_for : IsAssetFor assets j.protocol chosen
  pub binds : k ≡ bind_job chosen j

-- Job by job, in order.
abbrev pub AllBound : List ManifestAsset → List Job → List Job → Type 0
AllBound assets [] [] = Unit
AllBound assets [] (k ∷ ks) = ⊥
AllBound assets (j ∷ js) [] = ⊥
AllBound assets (j ∷ js) (k ∷ ks) = IsBinding assets j k × AllBound assets js ks

pub count_at-bump :
    (p q : Protocol) (m : List (Protocol × ℕ))
    → count_at q (bump p m) ≡ (if p == q then 1 else 0) + count_at q m
unfolding count_at bump lookup
count_at-bump p q m = elim (Bool-cases (p == q)) [
  | inl t ↦
      subst (λ r. count_at r (bump p m) ≡ (if p == r then 1 else 0) + count_at r m)
        ((==_iff p q).0 t) (rw ((==_iff p p).1 refl) (omega arith))
  | inr f ↦ rw f (omega arith)
]

pub count_at-bump_self :
    (p : Protocol) (m : List (Protocol × ℕ)) → count_at p (bump p m) ≡ count_at p m + 1
count_at-bump_self p m = count_at-bump p p m ∙ (rw ((==_iff p p).1 refl) (omega arith))

module _ (pools : Protocol → List ManifestAsset) where
  pub bind_jobs-cons :
      (positions : List (Protocol × ℕ)) (j : Job) (js : List Job) {out : List Job}
      → bind_jobs pools positions (j ∷ js) ≡ ok out
      → (a : ManifestAsset) × (tail : List Job) × (get_elem?
            (pools j.protocol)
            (count_at j.protocol positions)
          ≡ some a)
        × (bind_jobs pools (bump j.protocol positions) js ≡ ok tail)
        × (out ≡ bind_job a j ∷ tail)
  unfolding bind_jobs
  bind_jobs-cons positions j js e =
      let (a, e1, e2) =
        >>=-eq-ok
          (or_fail (get_elem? (pools j.protocol) (count_at j.protocol positions))
            index_out_of_range)
          _ e in
      let (tail, e3, e4) = >>=-eq-ok (bind_jobs pools (bump j.protocol positions) js) _ e2 in
      (
        a,
        tail,
        or_fail-eq-ok (get_elem? (pools j.protocol) (count_at j.protocol positions))
            index_out_of_range e1,
        e3,
        sym (ok-injective e4),
      )
