-- ===== src/Allocation/Places.antt =====
-- The places of the pools that the last loop of `Bind` reads (allocation.go).
use emm_go_script.Common.{
  tests, get_elem?, All, All-imp, Distinct, ok, ok-injective, ℕ, ◌+◌, ◌≤◌, String, ◌≡◌, refl, sym,
  ◌∙◌, subst, ◌≢◌, some, List, [], ◌∷◌, map, arith,
}
use emm_go_script.Config.{Protocol, Job}
use emm_go_script.Inventory.{ManifestAsset}
use emm_go_script.Allocation.{count_at, bump, shuffled_pool, bind_job, bind_jobs}
use emm_go_script.Allocation.Pools.{pool_entry, place_unique}
use emm_go_script.Allocation.Bound.{AllBound, count_at-bump, count_at-bump_self, bind_jobs-cons}

module _ (draw : Protocol → ℕ → ℕ) (assets : List ManifestAsset) where
  pub bind_jobs-AllBound :
      (positions : List (Protocol × ℕ)) (js : List Job) {out : List Job}
      → bind_jobs (shuffled_pool draw assets) positions js ≡ ok out
      → AllBound assets js out
  unfolding bind_jobs
  bind_jobs-AllBound positions [] e = subst (λ o. AllBound assets [] o) (ok-injective e) tt
  bind_jobs-AllBound positions (j ∷ js) e =
      let (a, tail, g, e', out_is) = bind_jobs-cons (shuffled_pool draw assets) positions j js e in
      subst (λ o. AllBound assets (j ∷ js) o) (sym out_is)
        (
          record {
            chosen = a;
            chosen_for = pool_entry draw assets j.protocol (count_at j.protocol positions) g;
            binds = refl;
          },
          bind_jobs-AllBound (bump j.protocol positions) js e',
        )

  -- `f` is an ID of an asset and `g` the same ID of a job that is bound to it.
  module _ (f : ManifestAsset → String) (g : Job → String)
      (same_id : (a : ManifestAsset) (j : Job) → g (bind_job a j) ≡ f a) where
    -- A job bound at a place that `positions` has not passed.
    record Later (positions : List (Protocol × ℕ)) (k : Job) : Type 0 where
      protocol : Protocol
      place : ℕ
      asset : ManifestAsset
      read : get_elem? (shuffled_pool draw assets protocol) place ≡ some asset
      not_passed : count_at protocol positions ≤ place
      id : g k ≡ f asset

    Later-bump :
        (p : Protocol) (positions : List (Protocol × ℕ)) (k : Job)
        → Later (bump p positions) k
        → Later positions k
    Later-bump p positions k h = record {
      protocol = h.protocol;
      place = h.place;
      asset = h.asset;
      read = h.read;
      not_passed = omega (tests, count_at-bump p h.protocol positions, h.not_passed);
      id = h.id;
    }

    bind_jobs-Later :
        (positions : List (Protocol × ℕ)) (js : List Job) {out : List Job}
        → bind_jobs (shuffled_pool draw assets) positions js ≡ ok out
        → All (Later positions) out
    unfolding bind_jobs
    bind_jobs-Later positions [] e = subst (λ o. All (Later positions) o) (ok-injective e) tt
    bind_jobs-Later positions (j ∷ js) e =
        let (a, tail, r, e', out_is) =
          bind_jobs-cons (shuffled_pool draw assets) positions j js e in
        subst (λ o. All (Later positions) o) (sym out_is)
          (
            record {
              protocol = j.protocol;
              place = count_at j.protocol positions;
              asset = a;
              read = r;
              not_passed = omega arith;
              id = same_id a j;
            },
            All-imp (Later (bump j.protocol positions)) (Later positions)
                (Later-bump j.protocol positions) tail
                (bind_jobs-Later (bump j.protocol positions) js e'),
          )

    -- A place that is read is passed.
    passed :
        Distinct (map f assets)
        → (p : Protocol) (positions : List (Protocol × ℕ)) (a : ManifestAsset)
        → get_elem? (shuffled_pool draw assets p) (count_at p positions) ≡ some a
        → (ks : List Job) → All (Later (bump p positions)) ks
        → All (λ y. f a ≢ y) (map g ks)
    passed d p positions a r [] h = tt
    passed d p positions a r (k ∷ ks) h = (
      λ e.
          let l = h.0 in
          let (p_is, place_is) =
            place_unique draw assets f d p l.protocol (count_at p positions) l.place r l.read
              (e ∙ l.id) in
          let past : count_at p (bump p positions) ≤ l.place =
            subst (λ q. count_at q (bump p positions) ≤ l.place) (sym p_is) l.not_passed in
          let one_more : count_at p (bump p positions) ≡ count_at p positions + 1 =
            count_at-bump_self p positions in
          absurd (omega arith),
      passed d p positions a r ks h.1,
    )

    pub bind_jobs-Distinct :
        Distinct (map f assets)
        → (positions : List (Protocol × ℕ)) (js : List Job) {out : List Job}
        → bind_jobs (shuffled_pool draw assets) positions js ≡ ok out
        → Distinct (map g out)
    unfolding bind_jobs
    bind_jobs-Distinct d positions [] e = subst (λ o. Distinct (map g o)) (ok-injective e) tt
    bind_jobs-Distinct d positions (j ∷ js) e =
        let (a, tail, r, e', out_is) =
          bind_jobs-cons (shuffled_pool draw assets) positions j js e in
        subst (λ o. Distinct (map g o)) (sym out_is)
          (
            subst (λ y. All (λ z. y ≢ z) (map g tail)) (sym (same_id a j))
                (passed d j.protocol positions a r tail
                  (bind_jobs-Later (bump j.protocol positions) js e')),
            bind_jobs-Distinct d (bump j.protocol positions) js e',
          )
