-- ===== src/App.antt =====
-- pam-loadtest/internal/app/runtime.go: the browser capacity and the targets of a scenario. `lookup_env` stands for `os.Getenv`,
-- `trim_right` for `strings.TrimRight` of slashes and `number_text` for the text of a number.
pub mod Capacity
mod Tests
use emm_go_script.Common.{
  if◌then◌else◌, Result, ok, err, guard, ◌>>=◌, ◌>>◌, string_eq, nat_eq, ◌==◌, lookup, Int64,
  int_mod, add_int, lt_int, ℕ, ◌*◌, ◌/◌, ◌%◌, String, ◌<>◌, Bool, not, ◌||◌, none, some, List, [],
  ◌∷◌,
}
use emm_go_script.Config.{Protocol, ssh, rdp, vnc, web, mysql, Config}
use emm_go_script.Config.Load.{activity_interval}
use emm_go_script.Config.Expand.{count_of}

pub data AppError : Type 0 where
  browser_capacity_below : Int64 → Int64 → AppError
  unsupported_target : Protocol → AppError

abbrev pub browser_protocols : List Protocol
browser_protocols = rdp ∷ vnc ∷ web ∷ mysql ∷ []

-- What a protocol adds to the graphical sessions.
unfoldable pub session_count : Config → Protocol → Int64
session_count c p = elim (lookup p c.execution_modes) [
  | none ↦ count_of c p
  | some m ↦ m.browser_count
]

unfoldable pub add_sessions : Config → List Protocol → Int64 → Int64
unfolding session_count
add_sessions c [] needed = needed
add_sessions c (p ∷ ps) needed = add_sessions c ps (add_int needed (session_count c p))

-- `browserSessions`.
unfoldable pub browser_sessions : Config → Int64
unfolding add_sessions
browser_sessions c = add_sessions c browser_protocols 0

-- `validateBrowserCapacity`.
unfoldable pub validate_browser_capacity : Config → Int64 → Int64 → Result AppError (Unit {0})
unfolding browser_sessions
validate_browser_capacity c workers sessions_per_worker =
    let capacity = workers * sessions_per_worker % int_mod in
    guard (not (lt_int capacity (browser_sessions c)))
      (browser_capacity_below capacity (browser_sessions c))

-- `runtimeDuration`.
unfoldable pub runtime_duration : Config → Int64
runtime_duration c = add_int c.ramp c.hold

abbrev one_second : Int64
one_second = 1000000000

-- The fields of `engine.Target` that are set here.
pub record Target : Type 0 where
  pub browser_url : String
  pub activity : String
  pub interval : Int64
  pub connection_only : Bool

module _ (lookup_env trim_right : String → String) (number_text : ℕ → String) where
  pub ssh_continuous_activity : Int64 → String
  ssh_continuous_activity interval =
      let seconds = if lt_int interval one_second then 1 else interval / one_second in
      "while true; do printf 'pam-loadtest %s\\n' \"$(date +%s%N)\"; sleep "
      <> number_text seconds
      <> "; done"

  pub ssh_activity : String → Int64 → String
  unfolding ssh_continuous_activity
  ssh_activity mode interval =
      if mode == "keepalive" then "true" else ssh_continuous_activity interval

  or_default : Config → String → String → String
  or_default c path url = if url == "" then trim_right c.pam.base_url <> path else url

  template_url : Config → Protocol → String
  template_url c p = elim (lookup p c.assets) [
    | none ↦ ""
    | some mapping ↦
        if mapping.url_template_env == "" then "" else lookup_env mapping.url_template_env
  ]

  -- The body of the loop of `buildBoundTargets`.
  pub bound_target : Config → Protocol → Result AppError Target
  unfolding ssh_activity or_default template_url activity_interval
  bound_target c p =
      let target : Target = record {
        browser_url = template_url c p;
        activity = "";
        interval = activity_interval c p;
        connection_only = c.connection_only;
      } in
      if p == ssh
      then ok
          (record target { activity = ssh_activity c.ssh_activity_mode c.ssh_activity_interval })
      else if p == mysql
      then ok (record target {
        activity = "SELECT COUNT(*), MAX(id) FROM pam_loadtest.payload";
        browser_url = or_default c "/#/asset" target.browser_url;
      })
      else if p == rdp || p == vnc
      then ok (record target {
        browser_url =
            or_default c "/#/access?assetId={assetId}&protocol={protocol}&accountId={accountId}"
              target.browser_url;
      })
      else if p == web
      then ok (record target {
        browser_url =
            or_default c "/#/web-access?assetId={assetId}&accountId={accountId}" target.browser_url;
      })
      else err (unsupported_target p)

  bound_targets_of : Config → List (Protocol × Int64) → Result AppError (List (Protocol × Target))
  unfolding bound_target
  bound_targets_of c [] = ok []
  bound_targets_of c ((p, count) ∷ rest) =
      let later = bound_targets_of c rest in
      if count == 0
      then later
      else (do target ← bound_target c p; targets ← later; ok ((p, target) ∷ targets))

  -- `buildBoundTargets`.
  unfoldable pub build_bound_targets : Config → Result AppError (List (Protocol × Target))
  unfolding bound_targets_of
  build_bound_targets c = bound_targets_of c c.protocols
