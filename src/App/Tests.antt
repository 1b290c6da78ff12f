-- ===== src/App/Tests.antt =====
-- A scenario of two RDP jobs, one of them in a browser, and one MySQL job, whose mode the scenario does not name.
use emm_go_script.Common.{
  ok, err, string_eq, nat_eq, lookup, ℕ, ◌*◌, ◌≤◌, String, ◌≡◌, refl, true, false, List, [], ◌∷◌,
  arith,
}
use emm_go_script.Config.{Config, Job}
use emm_go_script.Config.Expand.{count_of, expand}
use emm_go_script.Config.Load.{activity_interval}
use emm_go_script.Config.Expand.Tally.{tally}
use emm_go_script.App.Capacity.{browser_jobs, validate_browser_capacity-browser_jobs}
use emm_go_script.App.{
  browser_capacity_below, session_count, validate_browser_capacity, build_bound_targets,
}

abbrev scenario : Config
scenario = record {
  name = "small";
  total = 3;
  ramp = 1;
  hold = 2;
  ssh_activity_interval = 0;
  ssh_activity_mode = "";
  graphical_activity_intervals = [];
  ramp_text = "";
  hold_text = "";
  ssh_activity_interval_text = "";
  graphical_activity_interval_text = [];
  continue_on_errors = false;
  connection_only = true;
  connect_retries = 0;
  seed = 1;
  protocols = ("rdp", 2) ∷ ("mysql", 1) ∷ [];
  execution_modes = ("rdp", record { direct_count = 1; browser_count = 1 }) ∷ [];
  pam = record {
    base_url = "http://pam";
    username_env = "";
    password_env = "";
    username = "";
    password = "";
  };
  assets = [];
}

abbrev job : ℕ → String → String → Job
job n p m = record { id = n; protocol = p; mode = m; asset_id = ""; account_id = "" }

abbrev scenario_jobs : List Job
scenario_jobs = job 1 "rdp" "browser" ∷ job 2 "rdp" "direct" ∷ job 3 "mysql" "direct" ∷ []

expand-scenario : expand scenario ≡ ok scenario_jobs
unfolding expand
expand-scenario = refl

validate_browser_capacity-two : validate_browser_capacity scenario 1 2 ≡ ok tt
unfolding validate_browser_capacity count_of lookup
validate_browser_capacity-two = refl

-- One session is too few for the check, although one job alone runs in a browser.
validate_browser_capacity-one :
    validate_browser_capacity scenario 1 1 ≡ err (browser_capacity_below 1 2)
unfolding validate_browser_capacity count_of lookup
validate_browser_capacity-one = refl

browser_jobs-scenario : browser_jobs scenario_jobs ≡ 1
unfolding browser_jobs tally
browser_jobs-scenario = refl

validate_browser_capacity-browser_jobs_example : browser_jobs scenario_jobs ≤ 1 * 2
validate_browser_capacity-browser_jobs_example =
    validate_browser_capacity-browser_jobs scenario 1 2 (omega arith)
      (unfold session_count count_of lookup in omega arith) expand-scenario
      validate_browser_capacity-two

-- A browser count of -5 for RDP, which has no jobs, so that `Expand` does not look at it: five jobs of VNC pass with one session.
abbrev negative_scenario : Config
negative_scenario = record scenario {
  total = 5;
  protocols = ("vnc", 5) ∷ [];
  execution_modes = ("rdp", record { direct_count = 0; browser_count = 18446744073709551611 }) ∷ [];
}

validate_browser_capacity-negative : validate_browser_capacity negative_scenario 1 1 ≡ ok tt
unfolding validate_browser_capacity count_of lookup
validate_browser_capacity-negative = refl

abbrev vnc_jobs : List Job
vnc_jobs =
    job 1 "vnc" "browser"
    ∷ job 2 "vnc" "browser"
    ∷ job 3 "vnc" "browser"
    ∷ job 4 "vnc" "browser"
    ∷ job 5 "vnc" "browser"
    ∷ []

expand-negative : expand negative_scenario ≡ ok vnc_jobs
unfolding expand
expand-negative = refl

browser_jobs-negative : browser_jobs vnc_jobs ≡ 5
unfolding browser_jobs tally
browser_jobs-negative = refl

abbrev same_text : String → String
same_text text = text

abbrev shown : ℕ → String
shown n = "1"

build_bound_targets-scenario :
    build_bound_targets same_text same_text shown scenario
    ≡ ok (
        (
          "rdp",
          record {
            browser_url =
                "http://pam/#/access?assetId={assetId}&protocol={protocol}&accountId={accountId}";
            activity = "";
            interval = 1000000000;
            connection_only = true;
          },
        )
        ∷ (
          "mysql",
          record {
            browser_url = "http://pam/#/asset";
            activity = "SELECT COUNT(*), MAX(id) FROM pam_loadtest.payload";
            interval = 1000000000;
            connection_only = true;
          },
        )
        ∷ [])
unfolding build_bound_targets lookup activity_interval
build_bound_targets-scenario = refl
