-- ===== src/Config.antt =====
-- pam-loadtest/internal/config/config.go: the scenario, its validation and its jobs. Protocols and
-- execution modes are Go strings. Counts and durations are 64-bit patterns (Common/Word.antt).
pub mod Load
pub mod Expand
mod Tests
use emm_go_script.Common.{Int64, String, Bool, List, [], ◌∷◌}

abbrev pub Protocol : Type 0
Protocol = String

abbrev pub ExecutionMode : Type 0
ExecutionMode = String

abbrev pub ssh : Protocol
ssh = "ssh"

abbrev pub rdp : Protocol
rdp = "rdp"

abbrev pub vnc : Protocol
vnc = "vnc"

abbrev pub web : Protocol
web = "web"

abbrev pub mysql : Protocol
mysql = "mysql"

abbrev pub direct : ExecutionMode
direct = "direct"

abbrev pub browser : ExecutionMode
browser = "browser"

abbrev pub protocol_order : List Protocol
protocol_order = ssh ∷ rdp ∷ vnc ∷ web ∷ mysql ∷ []

pub record Pam : Type 0 where
  pub base_url : String
  pub username_env : String
  pub password_env : String
  pub username : String
  pub password : String

pub record ModeCounts : Type 0 where
  pub direct_count : Int64
  pub browser_count : Int64

pub record AssetEnv : Type 0 where
  pub asset_id_env : String
  pub account_id_env : String
  pub url_template_env : String

pub record Config : Type 0 where
  pub name : String
  pub total : Int64
  pub ramp : Int64
  pub hold : Int64
  pub ssh_activity_interval : Int64
  pub ssh_activity_mode : String
  pub graphical_activity_intervals : List (Protocol × Int64)
  pub ramp_text : String
  pub hold_text : String
  pub ssh_activity_interval_text : String
  pub graphical_activity_interval_text : List (Protocol × String)
  pub continue_on_errors : Bool
  pub connection_only : Bool
  pub connect_retries : Int64
  pub seed : Int64
  pub protocols : List (Protocol × Int64)
  pub execution_modes : List (Protocol × ModeCounts)
  pub pam : Pam
  pub assets : List (Protocol × AssetEnv)

pub record Job : Type 0 where
  pub id : Int64
  pub protocol : Protocol
  pub mode : ExecutionMode
  pub asset_id : String
  pub account_id : String
