-- ===== src/Distributed/Request/Valid.antt =====
-- What `validateRunRequest` guarantees of a request that it accepts.
use text.Mathlib.TextEquality.{eq_iff}
use native.Mathlib.Nat.{add-zero}
use emm_go_script.Config.{protocol_order}
use emm_go_script.Config.Load.{is_graphical, valid_interval, valid_connect_retries}
use emm_go_script.Common.{
  if◌then◌else◌, length, All, Distinct, ok, >>=-eq-ok, guard-eq-ok, ok-injective, guard-true, ◌==◌,
  nat_eq, string_eq, mem, Fresh, Fresh-cons, Int64, int_mod, int_min, lt_int, ℕ, ◌+◌, ◌≤◌, ◌<◌,
  String, ◌≡◌, refl, ap, subst, ◌≢◌, ◌⊎◌, inl, inr, Bool, true, false, not, ◌&&◌, ◌||◌, List, [],
  ◌∷◌, map, arith,
}
use emm_go_script.Distributed.Request.{
  Capabilities, WireJob, RunRequest, run_id_required, exceeds_direct, exceeds_browser,
  check_graphical, Seen, check_mode, add_ids, check_job, check_jobs, nothing_seen, is_activity_mode,
  validate_run_request,
}

pub validate-run_id :
    (q : RunRequest) (c : Capabilities) → validate_run_request q c ≡ ok tt → q.run_id ≢ ""
unfolding validate_run_request
validate-run_id q c e p =
    let (t, _) = guard-eq-ok (not (q.run_id == "")) run_id_required _ e in
    ground (arith, eq_iff q.run_id "")

-- The number of jobs in a mode.
pub count_mode : String → List WireJob → ℕ
count_mode m [] = 0
count_mode m (j ∷ js) = (if j.mode == m then 1 else 0) + count_mode m js

-- A job that the agent can run: bound, of a known protocol, and in a mode that the agent serves for it.
pub record IsRunnable (supported : List String) (j : WireJob) : Type 0 where
  pub bound : (j.asset_id ≢ "") × (j.account_id ≢ "")
  pub known : mem j.protocol protocol_order ≡ true
  pub served :
      (j.mode ≡ "direct") × (mem j.protocol supported ≡ true)
      ⊎ (j.mode ≡ "browser") × (is_graphical j.protocol ≡ true)

-- What the job loop has established when it ends in `out`, from `s` on.
record Checked (supported : List String) (s : Seen) (js : List WireJob) (out : Seen) : Type 0 where
  runnable : All (IsRunnable supported) js
  job_ids : Fresh s.job_ids (map (λ j. j.id) js)
  asset_ids : Fresh s.asset_ids (map (λ j. j.asset_id) js)
  account_ids : Fresh s.account_ids (map (λ j. j.account_id) js)
  direct_jobs : out.direct_jobs ≡ s.direct_jobs + count_mode "direct" js
  browser_jobs : out.browser_jobs ≡ s.browser_jobs + count_mode "browser" js

check_mode_cases :
    (supported : List String) (j : WireJob) (s : Seen) {out : Seen}
    → check_mode supported j s ≡ ok out
    → ((j.mode ≡ "direct")
        × (mem j.protocol supported ≡ true)
        × (out ≡ record s { direct_jobs = s.direct_jobs + 1 }))
      ⊎ ((j.mode ≡ "browser")
          × (is_graphical j.protocol ≡ true)
          × (out ≡ record s { browser_jobs = s.browser_jobs + 1 }))
unfolding check_mode
check_mode_cases supported j s e = ground (arith, eq_iff j.mode "direct", eq_iff j.mode "browser")

count_mode_tests :
    (m : String)
    → (m ≡ "direct" → ((m == "direct") ≡ true) × ((m == "browser") ≡ false))
      × (m ≡ "browser" → ((m == "direct") ≡ false) × ((m == "browser") ≡ true))
count_mode_tests m = ((λ e. rw e (refl, refl)), (λ e. rw e (refl, refl)))

-- One round of the job loop, from `s` to `out`.
record Round (supported : List String) (s : Seen) (j : WireJob) (out : Seen) : Type 0 where
  runnable : IsRunnable supported j
  new_id : mem j.id s.job_ids ≡ false
  new_asset : mem j.asset_id s.asset_ids ≡ false
  new_account : mem j.account_id s.account_ids ≡ false
  ids : out.job_ids ≡ j.id ∷ s.job_ids
  assets : out.asset_ids ≡ j.asset_id ∷ s.asset_ids
  accounts : out.account_ids ≡ j.account_id ∷ s.account_ids
  direct_more : out.direct_jobs ≡ s.direct_jobs + (if j.mode == "direct" then 1 else 0)
  browser_more : out.browser_jobs ≡ s.browser_jobs + (if j.mode == "browser" then 1 else 0)

-- The switch on the mode counts the job, and leaves what was seen.
record Counted (supported : List String) (s : Seen) (j : WireJob) (out : Seen) : Type 0 where
  served :
      (j.mode ≡ "direct") × (mem j.protocol supported ≡ true)
      ⊎ (j.mode ≡ "browser") × (is_graphical j.protocol ≡ true)
  same_ids : out.job_ids ≡ s.job_ids
  same_assets : out.asset_ids ≡ s.asset_ids
  same_accounts : out.account_ids ≡ s.account_ids
  direct_more : out.direct_jobs ≡ s.direct_jobs + (if j.mode == "direct" then 1 else 0)
  browser_more : out.browser_jobs ≡ s.browser_jobs + (if j.mode == "browser" then 1 else 0)

check_mode-Counted :
    (supported : List String) (j : WireJob) (s : Seen) {out : Seen}
    → check_mode supported j s ≡ ok out
    → Counted supported s j out
check_mode-Counted supported j s e = elim (check_mode_cases supported j s e) [
  | inl (d, sup, p) ↦
      let (t, u) = (count_mode_tests j.mode).0 d in
      rw p (record {
        served = inl (d, sup);
        same_ids = refl;
        same_assets = refl;
        same_accounts = refl;
        direct_more = rw t;
        browser_more = rw (u, add-zero);
      })
  | inr (d, sup, p) ↦
      let (t, u) = (count_mode_tests j.mode).1 d in
      rw p (record {
        served = inr (d, sup);
        same_ids = refl;
        same_assets = refl;
        same_accounts = refl;
        direct_more = rw (t, add-zero);
        browser_more = rw u;
      })
]

not-false : (b : Bool) → not b ≡ true → b ≡ false
not-false b h = ground arith

bound_ids :
    (j : WireJob)
    → (lt_int 0 j.id && not (j.asset_id == "" || j.account_id == "")) ≡ true
    → (j.asset_id ≢ "") × (j.account_id ≢ "")
bound_ids j h =
    ((λ p. ground (arith, eq_iff j.asset_id "")), (λ p. ground (arith, eq_iff j.account_id "")))

check_job-Round :
    (supported : List String) (j : WireJob) (s : Seen) {out : Seen}
    → check_job supported j s ≡ ok out
    → Round supported s j out
unfolding check_job add_ids
check_job-Round supported j s {out} e =
    let (b, e1) =
      guard-eq-ok (lt_int 0 j.id && not (j.asset_id == "" || j.account_id == "")) _ _ e in
    let (k, e2) = guard-eq-ok (mem j.protocol protocol_order) _ _ e1 in
    let (s', m, e3) = >>=-eq-ok (check_mode supported j s) _ e2 in
    let (f1, e4) = guard-eq-ok (not (mem j.id s.job_ids)) _ _ e3 in
    let (f2, e5) = guard-eq-ok (not (mem j.asset_id s.asset_ids)) _ _ e4 in
    let (f3, e6) = guard-eq-ok (not (mem j.account_id s.account_ids)) _ _ e5 in
    let c = check_mode-Counted supported j s m in
    subst (Round supported s j) (ok-injective e6) (record {
      runnable = record { bound = bound_ids j b; known = k; served = c.served };
      new_id = not-false _ f1;
      new_asset = not-false _ f2;
      new_account = not-false _ f3;
      ids = ap (◌∷◌ j.id) c.same_ids;
      assets = ap (◌∷◌ j.asset_id) c.same_assets;
      accounts = ap (◌∷◌ j.account_id) c.same_accounts;
      direct_more = c.direct_more;
      browser_more = c.browser_more;
    })

check_jobs-Checked :
    (supported : List String) (js : List WireJob) (s : Seen) {out : Seen}
    → check_jobs supported js s ≡ ok out
    → Checked supported s js out
unfolding check_jobs count_mode
check_jobs-Checked supported [] s {out} e = record {
  runnable = tt;
  job_ids = (tt, tt);
  asset_ids = (tt, tt);
  account_ids = (tt, tt);
  direct_jobs = ground arith;
  browser_jobs = ground arith;
}
check_jobs-Checked supported (j ∷ js) s {out} e =
    let (s', e1, e2) = >>=-eq-ok (check_job supported j s) _ e in
    let r = check_job-Round supported j s e1 in
    let c = check_jobs-Checked supported js s' e2 in
    record {
      runnable = (r.runnable, c.runnable);
      job_ids =
          Fresh-cons j.id s.job_ids _ r.new_id
            (subst (λ seen. Fresh seen (map (λ i. i.id) js)) r.ids c.job_ids);
      asset_ids =
          Fresh-cons j.asset_id s.asset_ids _ r.new_asset
            (subst (λ seen. Fresh seen (map (λ i. i.asset_id) js)) r.assets c.asset_ids);
      account_ids =
          Fresh-cons j.account_id s.account_ids _ r.new_account
            (subst (λ seen. Fresh seen (map (λ i. i.account_id) js)) r.accounts c.account_ids);
      direct_jobs = omega (arith, r.direct_more, c.direct_jobs);
      browser_jobs = omega (arith, r.browser_more, c.browser_jobs);
    }

-- A request that an agent accepts: its run has an ID, its jobs are runnable, no ID, asset or account stands twice among
-- them, and they fit the agent's three capacities.
pub record IsAccepted (q : RunRequest) (c : Capabilities) : Type 0 where
  pub named : q.run_id ≢ ""
  pub runnable : All (IsRunnable c.direct_protocols) q.jobs
  pub job_ids : Distinct (map (λ j. j.id) q.jobs)
  pub asset_ids : Distinct (map (λ j. j.asset_id) q.jobs)
  pub account_ids : Distinct (map (λ j. j.account_id) q.jobs)
  pub nonempty : 0 < length q.jobs
  pub within : length q.jobs ≤ c.capacity
  pub within_direct : count_mode "direct" q.jobs ≤ c.direct_capacity
  pub within_browser : count_mode "browser" q.jobs ≤ c.browser_capacity

count_mode-le : (m : String) (js : List WireJob) → count_mode m js ≤ length js
unfolding count_mode
count_mode-le m [] = omega arith
count_mode-le m (j ∷ js) = ground (arith, count_mode-le m js)

-- A signed test against a count that an `int` can hold.
le_of_not-lt_int :
    (cap n : Int64) → cap < int_mod → n < int_min → not (lt_int cap n) ≡ true → n ≤ cap
le_of_not-lt_int cap n hc hn h = ground arith

nonempty : (js : List WireJob) → not (length js == 0) ≡ true → 0 < length js
nonempty js h = ground arith

-- Where the capacities are 64-bit values and the number of jobs is an `int`, a request passes `validateRunRequest` only if it
-- is acceptable in all the ways of `IsAccepted`.
pub validate-IsAccepted :
    (q : RunRequest) (c : Capabilities)
    → c.capacity < int_mod
    → c.direct_capacity < int_mod
    → c.browser_capacity < int_mod
    → length q.jobs < int_min
    → validate_run_request q c ≡ ok tt
    → IsAccepted q c
unfolding validate_run_request nothing_seen
validate-IsAccepted q c h1 h2 h3 hn e =
    let (_, e1) = guard-eq-ok (not (q.run_id == "")) _ _ e in
    let (_, e2) = guard-eq-ok (lt_int 0 q.ramp_nanos && lt_int 0 q.hold_nanos) _ _ e1 in
    let (_, e3) = guard-eq-ok (valid_connect_retries q.connect_retries) _ _ e2 in
    let (_, e4) = guard-eq-ok (valid_interval q.ssh_activity_interval_nanos) _ _ e3 in
    let (_, e5) = guard-eq-ok (is_activity_mode q.ssh_activity_mode) _ _ e4 in
    let (_, _, e6) = >>=-eq-ok (check_graphical q.graphical_activity_interval_nanos) _ e5 in
    let (some_jobs, e7) = guard-eq-ok (not (length q.jobs == 0)) _ _ e6 in
    let (cap, e8) = guard-eq-ok (not (lt_int c.capacity (length q.jobs))) _ _ e7 in
    let (s, js, e9) = >>=-eq-ok (check_jobs c.direct_protocols q.jobs nothing_seen) _ e8 in
    let (dcap, e10) =
      guard-eq-ok (not (lt_int c.direct_capacity s.direct_jobs)) exceeds_direct _ e9 in
    let bcap = guard-true (not (lt_int c.browser_capacity s.browser_jobs)) exceeds_browser e10 in
    let k = check_jobs-Checked c.direct_protocols q.jobs nothing_seen js in
    let ds = count_mode-le "direct" q.jobs in
    let bs = count_mode-le "browser" q.jobs in
    record {
      named = validate-run_id q c e;
      runnable = k.runnable;
      job_ids = k.job_ids.1;
      asset_ids = k.asset_ids.1;
      account_ids = k.account_ids.1;
      nonempty = nonempty q.jobs some_jobs;
      within = le_of_not-lt_int c.capacity (length q.jobs) h1 hn cap;
      within_direct = omega (
        arith,
        le_of_not-lt_int c.direct_capacity s.direct_jobs h2 (omega (arith, k.direct_jobs)) dcap,
        k.direct_jobs,
      );
      within_browser = omega (
        arith,
        le_of_not-lt_int c.browser_capacity s.browser_jobs h3 (omega (arith, k.browser_jobs)) bcap,
        k.browser_jobs,
      );
    }
