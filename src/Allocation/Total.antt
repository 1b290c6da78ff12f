-- ===== src/Allocation/Total.antt =====
-- The room in the pools for the last loop of `Bind` (allocation.go).
use emm_go_script.Common.{
  ltb, if◌then◌else◌, length, get_elem?-lt, All, ok, guard-eq-ok, ok-injective, string_eq, nat_eq,
  ◌==◌, ==_iff, mem, Int64, lt_int, ℕ, ◌+◌, ◌≤◌, ◌<◌, ◌≡◌, refl, sym, subst, ◌⊎◌, inl, inr, Bool,
  true, false, not, ◌&&◌, ◌||◌, List, [], ◌∷◌, arith,
}
use emm_go_script.Config.{Protocol, ssh, rdp, vnc, web, mysql, protocol_order, Job}
use emm_go_script.Inventory.{ManifestAsset}
use emm_go_script.Allocation.{
  id_not_positive, duplicate_job_id, already_bound, unsupported_job, pool_exhausted, count_at, bump,
  pool_of, known_protocol, count_jobs, check_pools, bind_job, bind_jobs,
}
use emm_go_script.Allocation.Bound.{count_at-bump}

-- How many of the jobs are of the protocol.
pub asked : Protocol → List Job → ℕ
asked q [] = 0
asked q (j ∷ js) = (if j.protocol == q then 1 else 0) + asked q js

abbrev pub AllKnown : List Job → Type 0
AllKnown = All (λ j. known_protocol j.protocol ≡ true)

pub count_jobs-asked :
    (seen : List Int64) (requested : List (Protocol × ℕ)) (js : List Job)
    {out : List (Protocol × ℕ)}
    → count_jobs seen requested js ≡ ok out
    → AllKnown js × ((q : Protocol) → count_at q out ≡ asked q js + count_at q requested)
unfolding count_jobs asked
count_jobs-asked seen requested [] e =
    subst (λ o. AllKnown [] × ((q : Protocol) → count_at q o ≡ 0 + count_at q requested))
      (ok-injective e) (tt, λ q. omega arith)
count_jobs-asked seen requested (j ∷ js) e =
    let (_, e1) = guard-eq-ok (lt_int 0 j.id) id_not_positive _ e in
    let (_, e2) = guard-eq-ok (not (mem j.id seen)) duplicate_job_id _ e1 in
    let (_, e3) = guard-eq-ok (j.asset_id == "" && j.account_id == "") (already_bound j.id) _ e2 in
    let (known, e4) = guard-eq-ok (known_protocol j.protocol) (unsupported_job j.id) _ e3 in
    let (rest_known, counts) = count_jobs-asked (j.id ∷ seen) (bump j.protocol requested) js e4 in
    ((known, rest_known), λ q. omega (arith, counts q, count_at-bump j.protocol q requested))

-- The pools that were checked are large enough.
pub check_pools-room :
    (assets : List ManifestAsset) (requested : List (Protocol × ℕ)) (ps : List Protocol)
    → check_pools assets requested ps ≡ ok tt
    → All (λ p. count_at p requested ≤ length (pool_of p assets)) ps
unfolding check_pools
check_pools-room assets requested [] e = tt
check_pools-room assets requested (p ∷ ps) e =
    let (room, e') =
      guard-eq-ok (not (ltb (length (pool_of p assets)) (count_at p requested)))
        (pool_exhausted p (length (pool_of p assets)) (count_at p requested)) _ e in
    (ground arith, check_pools-room assets requested ps e')

or-cases : (b c : Bool) → (b || c) ≡ true → (b ≡ true) ⊎ (c ≡ true)
or-cases true c h = inl refl
or-cases false c h = inr h

-- What holds of the five protocols holds of each known one.
pub known_protocol-All :
    (P : Protocol → Type 0) → All P protocol_order → (q : Protocol) → known_protocol q ≡ true → P q
unfolding known_protocol
known_protocol-All P (s, (r, (v, (w, (m, _))))) q k = elim (or-cases _ _ k) [
  | inl e ↦ subst P (sym ((==_iff q ssh).0 e)) s
  | inr k1 ↦ elim (or-cases _ _ k1) [
    | inl e ↦ subst P (sym ((==_iff q rdp).0 e)) r
    | inr k2 ↦ elim (or-cases _ _ k2) [
      | inl e ↦ subst P (sym ((==_iff q vnc).0 e)) v
      | inr k3 ↦ elim (or-cases _ _ k3) [
        | inl e ↦ subst P (sym ((==_iff q web).0 e)) w
        | inr e ↦ subst P (sym ((==_iff q mysql).0 e)) m
      ]
    ]
  ]
]

-- Each known protocol has an asset left for each job that is left.
abbrev HasRoom : (Protocol → List ManifestAsset) → List (Protocol × ℕ) → List Job → Type 0
HasRoom pools positions js =
    (q : Protocol) → known_protocol q ≡ true → asked q js + count_at q positions ≤ length (pools q)

module _ (pools : Protocol → List ManifestAsset) where
  pub bind_jobs-total :
      (positions : List (Protocol × ℕ)) (js : List Job)
      → AllKnown js
      → HasRoom pools positions js
      → (out : List Job) × (bind_jobs pools positions js ≡ ok out)
  unfolding bind_jobs asked
  bind_jobs-total positions [] k h = ([], refl)
  bind_jobs-total positions (j ∷ js) k h =
      let self : ◌≡◌ {A = ℕ} (if j.protocol == j.protocol then 1 else 0) 1 =
        rw ((==_iff j.protocol j.protocol).1 refl) refl in
      let room : count_at j.protocol positions < length (pools j.protocol) =
        omega (arith, self, h j.protocol k.0) in
      let (a, g) = get_elem?-lt (pools j.protocol) (count_at j.protocol positions) room in
      let (tail, e) =
        bind_jobs-total (bump j.protocol positions) js k.1
          (λ q kq. omega (arith, h q kq, count_at-bump j.protocol q positions)) in
      (bind_job a j ∷ tail, rw (g, e) refl)
