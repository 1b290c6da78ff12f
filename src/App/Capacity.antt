-- ===== src/App/Capacity.antt =====
-- The browser capacity against the jobs of a scenario (runtime.go, config.go).
use emm_go_script.Common.{
  Bool-cases, ok, get_or, guard-true, string_eq, nat_eq, ◌==◌, mem, lookup, Int64, int_mod, int_min,
  add_int, lt_int, ℕ, ◌+◌, ◌*◌, ◌%◌, ◌≤◌, ◌<◌, ◌≡◌, refl, inl, inr, true, not, Option, none, some,
  List, arith,
}
use emm_go_script.Config.{Protocol, rdp, vnc, web, mysql, browser, ModeCounts, Config, Job}
use emm_go_script.Config.Expand.{count_of, expand}
use emm_go_script.Config.Expand.Tally.{tally, usual_modes, share, share_in, expand-tally}
use emm_go_script.App.{session_count, browser_sessions, validate_browser_capacity}

usual_modes-browser : (p : Protocol) (n : ℕ) → share_in browser (usual_modes p n) ≤ n
unfolding share_in usual_modes
usual_modes-browser p n = ground arith

share_in-get_or :
    (o : Option ModeCounts) (p : Protocol) (n : ℕ)
    → share_in browser (get_or o (usual_modes p n)) ≤ elim o [ none ↦ n | some m ↦ m.browser_count ]
share_in-get_or none p n = usual_modes-browser p n
share_in-get_or (some m) p n = unfold share_in in omega arith

share-session_count : (c : Config) (p : Protocol) → share_in browser (share c p) ≤ session_count c p
unfolding share session_count
share-session_count c p = elim (Bool-cases (count_of c p == 0)) [
  | inl e ↦ rw e (unfold share_in in omega arith)
  | inr e ↦ rw e (share_in-get_or (lookup p c.execution_modes) p (count_of c p))
]

add_int-sum :
    (a b c d : Int64)
    → a + b + c + d < int_min
    → add_int (add_int (add_int (add_int 0 a) b) c) d ≡ a + b + c + d
add_int-sum a b c d h = omega arith

capacity_suffices :
    (capacity needed : Int64)
    → capacity < int_min
    → needed < int_min
    → not (lt_int (capacity % int_mod) needed) ≡ true
    → needed ≤ capacity
capacity_suffices capacity needed h g v = ground arith

-- The sessions in a browser that a scenario's jobs ask for.
unfoldable pub browser_jobs : List Job → ℕ
browser_jobs jobs =
    tally rdp browser jobs
    + tally vnc browser jobs
    + tally web browser jobs
    + tally mysql browser jobs

-- Where the capacity passes the check, the product that is the capacity and the sum of the browser counts of RDP, VNC, Web and
-- MySQL do not overflow, and none of these counts is negative, the browsers can serve at once all the jobs of these four protocols
-- that run in a browser.
pub validate_browser_capacity-browser_jobs :
    (c : Config) (workers sessions_per_worker : Int64) {jobs : List Job}
    → workers * sessions_per_worker < int_min
    → session_count c rdp + session_count c vnc + session_count c web + session_count c mysql
      < int_min
    → expand c ≡ ok jobs
    → validate_browser_capacity c workers sessions_per_worker ≡ ok tt
    → browser_jobs jobs ≤ workers * sessions_per_worker
unfolding validate_browser_capacity browser_jobs
validate_browser_capacity-browser_jobs c workers sessions_per_worker h g e v =
    let sum : browser_sessions c
        ≡ session_count c rdp + session_count c vnc + session_count c web + session_count c mysql =
      unfold browser_sessions in
      add_int-sum (session_count c rdp) (session_count c vnc) (session_count c web)
        (session_count c mysql) g in
    let at_most : browser_sessions c ≤ workers * sessions_per_worker =
      capacity_suffices (workers * sessions_per_worker) (browser_sessions c) h (omega (arith, sum))
        (guard-true _ _ v) in
    omega (
      arith,
      sum,
      at_most,
      expand-tally c rdp browser (unfold mem in refl) e,
      expand-tally c vnc browser (unfold mem in refl) e,
      expand-tally c web browser (unfold mem in refl) e,
      expand-tally c mysql browser (unfold mem in refl) e,
      share-session_count c rdp,
      share-session_count c vnc,
      share-session_count c web,
      share-session_count c mysql,
    )
