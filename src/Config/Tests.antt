-- ===== src/Config/Tests.antt =====
-- A small scenario, run through `Load` and `Expand`.
use text.Mathlib.TextEquality.{eq_iff}
use emm_go_script.Common.{
  if◌then◌else◌, length, All, ok, err, string_eq, nat_eq, ◌==◌, mem, lookup, Int64, int_mod, ℕ, ◌<◌,
  String, ◌≡◌, refl, false, Option, none, some, List, [], ◌∷◌, map, arith,
}
use emm_go_script.Config.{Protocol, ExecutionMode, ssh, rdp, vnc, direct, browser, Config, Job}
use emm_go_script.Config.Load.{load, activity_interval}
use emm_go_script.Config.Load.Intervals.{
  IsInterval, IsLoaded, load-IsLoaded, activity_interval-IsInterval,
}
use emm_go_script.Config.Expand.{total_mismatch, count_of, expand}
use emm_go_script.Config.Expand.Numbering.{count_up, IsFresh, expand-numbered, expand-IsFresh}
use emm_go_script.Config.Expand.Tally.{tally, usual_modes, share, share_in, expand-tally}
use emm_go_script.Config.Expand.Total.{sum_entries, expand-total}

abbrev scenario : Config
scenario = record {
  name = "small";
  total = 5;
  ramp = 0;
  hold = 0;
  ssh_activity_interval = 0;
  ssh_activity_mode = "";
  graphical_activity_intervals = [];
  ramp_text = "10s";
  hold_text = "10s";
  ssh_activity_interval_text = "";
  graphical_activity_interval_text = ("rdp", "10s") ∷ [];
  continue_on_errors = false;
  connection_only = false;
  connect_retries = 2;
  seed = 0;
  protocols = ("rdp", 3) ∷ ("ssh", 2) ∷ [];
  execution_modes = ("rdp", record { direct_count = 1; browser_count = 2 }) ∷ [];
  pam = record {
    base_url = "https://pam";
    username_env = "PAM_USER";
    password_env = "PAM_PASS";
    username = "";
    password = "";
  };
  assets = [];
}

abbrev job : ℕ → Protocol → ExecutionMode → Job
job n p m = record { id = n; protocol = p; mode = m; asset_id = ""; account_id = "" }

abbrev scenario_jobs : List Job
scenario_jobs =
    job 1 ssh direct
    ∷ job 2 ssh direct
    ∷ job 3 rdp browser
    ∷ job 4 rdp browser
    ∷ job 5 rdp direct
    ∷ []

expand-scenario : expand scenario ≡ ok scenario_jobs
unfolding expand
expand-scenario = refl

expand_mismatch : expand (record scenario { total = 6 }) ≡ err (total_mismatch 5 6)
unfolding expand
expand_mismatch = refl

expand-tally_example : tally rdp browser scenario_jobs ≡ 2
unfolding share share_in count_of lookup usual_modes
expand-tally_example = expand-tally scenario rdp browser (unfold mem in refl) expand-scenario

expand-total_example : length scenario_jobs ≡ 5
unfolding sum_entries
expand-total_example =
    expand-total scenario (((λ e. ground (arith, eq_iff "rdp" "ssh")), tt), (tt, tt))
      (omega arith, (omega arith, tt)) (omega arith) expand-scenario

expand-numbered_example : map (λ j. j.id) scenario_jobs ≡ 1 ∷ 2 ∷ 3 ∷ 4 ∷ 5 ∷ []
unfolding count_up
expand-numbered_example = expand-numbered scenario expand-scenario

expand-IsFresh_example : All IsFresh scenario_jobs
expand-IsFresh_example = expand-IsFresh scenario expand-scenario

abbrev ten_seconds : String → Option Int64
ten_seconds t = if t == "10s" then some 10000000000 else none

abbrev https : String → Option String
https u = some "https"

abbrev loaded : Config
loaded = record scenario {
  ramp = 10000000000;
  hold = 10000000000;
  ssh_activity_interval = 1000000000;
  ssh_activity_mode = "output";
  graphical_activity_intervals = ("rdp", 10000000000) ∷ [];
  seed = 1;
}

load-scenario : load ten_seconds https scenario ≡ ok loaded
unfolding load
load-scenario = refl

ten_seconds-fits : (t : String) (d : Int64) → ten_seconds t ≡ some d → d < int_mod
ten_seconds-fits t d h = ground arith

load-IsLoaded_example : IsLoaded loaded
load-IsLoaded_example =
    load-IsLoaded ten_seconds https ten_seconds-fits scenario (omega arith) load-scenario

activity_interval-IsInterval_example : IsInterval (activity_interval loaded vnc)
activity_interval-IsInterval_example =
    activity_interval-IsInterval loaded vnc
      (load-IsLoaded ten_seconds https ten_seconds-fits scenario (omega arith) load-scenario)
