-- ===== src/Config/Load.antt =====
-- `Config.Load` after `yaml.Unmarshal`, and the readers of a loaded scenario. The duration parser, the URI parser and
-- the environment are arguments: `none` is a parser's error, or a variable that is not set.
pub mod Intervals
use emm_go_script.Common.{
  if◌then◌else◌, Result, ok, ◌>>=◌, ◌>>◌, guard, or_fail, get_or, ◌==◌, nat_eq, string_eq, lookup,
  codes, Int64, is_neg, lt_int, ℕ, ◌%◌, String, Bool, false, not, ◌&&◌, ◌||◌, Option, List, [], ◌∷◌,
}
use emm_go_script.Config.{Protocol, ssh, rdp, vnc, web, mysql, Pam, Config}

pub data LoadError : Type 0 where
  inline_credentials missing_credential_env invalid_credential_env invalid_base_url : LoadError
  invalid_ramp invalid_hold invalid_ssh_interval invalid_ssh_mode : LoadError
  invalid_graphical_protocol invalid_graphical_interval : Protocol → LoadError
  invalid_connect_retries : LoadError
  credentials_not_set : LoadError
  asset_mapping_missing asset_env_required asset_env_not_set : Protocol → LoadError

-- `time.Second` and `time.Minute`, in nanoseconds.
abbrev pub second : Int64
second = 1000000000

abbrev pub minute : Int64
minute = 60000000000

-- `strings.ContainsAny(s, "=\r\n")`, over the code points.
pub has_separator : List ℕ → Bool
has_separator [] = false
has_separator (c ∷ s) = c == b'=' || c == 13 || c == 10 || has_separator s

unfoldable pub is_graphical : Protocol → Bool
is_graphical p = p == rdp || p == vnc || p == web || p == mysql

-- Not below a second, not above a minute, in whole seconds.
unfoldable pub valid_interval : Int64 → Bool
valid_interval i = not (lt_int i second || lt_int minute i || not (i % second == 0))

unfoldable pub valid_connect_retries : Int64 → Bool
valid_connect_retries n = not (is_neg n || lt_int 3 n)

module _ (parse_duration : String → Option Int64) (request_scheme : String → Option String) where
  pub positive_duration : String → LoadError → Result LoadError Int64
  positive_duration text e = do d ← or_fail (parse_duration text) e; guard (lt_int 0 d) e; ok d

  pub checked_interval : String → LoadError → Result LoadError Int64
  checked_interval text e = do d ← or_fail (parse_duration text) e; guard (valid_interval d) e; ok d

  pub check_base_url : Pam → Result LoadError (Unit {0})
  check_base_url p = do
    scheme ← or_fail (request_scheme p.base_url) invalid_base_url
    guard (scheme == "http" || scheme == "https") invalid_base_url

  pub check_pam : Pam → Result LoadError (Unit {0})
  check_pam p = do
    guard (p.username == "" && p.password == "") inline_credentials
    guard (not (p.username_env == "" || p.password_env == "")) missing_credential_env
    guard (not (has_separator (codes p.username_env) || has_separator (codes p.password_env)))
        invalid_credential_env
    check_base_url p

  pub ssh_interval : String → Result LoadError Int64
  ssh_interval text = if text == "" then ok second else checked_interval text invalid_ssh_interval

  pub graphical_intervals : List (Protocol × String) → Result LoadError (List (Protocol × Int64))
  graphical_intervals [] = ok []
  graphical_intervals ((p, text) ∷ rest) = do
    guard (is_graphical p) (invalid_graphical_protocol p)
    i ← checked_interval text (invalid_graphical_interval p)
    is ← graphical_intervals rest
    ok ((p, i) ∷ is)

  unfoldable pub load : Config → Result LoadError Config
  unfolding check_pam check_base_url positive_duration ssh_interval graphical_intervals
      checked_interval has_separator is_graphical valid_interval valid_connect_retries
  load c = do
    check_pam c.pam
    ramp ← positive_duration c.ramp_text invalid_ramp
    hold ← positive_duration c.hold_text invalid_hold
    interval ← ssh_interval c.ssh_activity_interval_text
    let mode = if c.ssh_activity_mode == "" then "output" else c.ssh_activity_mode
    guard (mode == "output" || mode == "keepalive") invalid_ssh_mode
    graphical ← graphical_intervals c.graphical_activity_interval_text
    guard (valid_connect_retries c.connect_retries) invalid_connect_retries
    ok (record c {
      ramp = ramp;
      hold = hold;
      ssh_activity_interval = interval;
      ssh_activity_mode = mode;
      graphical_activity_intervals = graphical;
      seed = if c.seed == 0 then 1 else c.seed;
    })

unfoldable pub activity_interval : Config → Protocol → Int64
activity_interval c p =
    if p == ssh && lt_int 0 c.ssh_activity_interval
    then c.ssh_activity_interval
    else let interval = get_or (lookup p c.graphical_activity_intervals) 0 in
      if lt_int 0 interval then interval else second

-- `os.LookupEnv`.
module _ (lookup_env : String → Option String) where
  unfoldable pub credentials : Config → Result LoadError (String × String)
  credentials c = do
    u ← or_fail (lookup_env c.pam.username_env) credentials_not_set
    p ← or_fail (lookup_env c.pam.password_env) credentials_not_set
    guard (not (u == "" || p == "")) credentials_not_set
    ok (u, p)

  -- `os.Getenv`: a variable that is not set reads as the empty text.
  pub getenv : String → String
  getenv name = get_or (lookup_env name) ""

  unfoldable pub asset : Config → Protocol → Result LoadError (String × String × String)
  unfolding lookup getenv
  asset c p = do
    a ← or_fail (lookup p c.assets) (asset_mapping_missing p)
    guard (not (a.asset_id_env == "" || a.account_id_env == "")) (asset_env_required p)
    let asset_id = getenv a.asset_id_env
    let account_id = getenv a.account_id_env
    guard (not (asset_id == "" || account_id == "")) (asset_env_not_set p)
    ok (asset_id, account_id, (if a.url_template_env == "" then "" else getenv a.url_template_env))
