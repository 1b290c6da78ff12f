-- ===== src/Inventory.antt =====
-- pam-loadtest/internal/inventory: the virtual assets of a load test. `trim_space` and `to_lower` stand for
-- `strings.TrimSpace` and `strings.ToLower`: the statements hold whatever they give.
pub mod Manifests
pub mod Apply
pub mod Plan
use emm_go_script.Common.{Int64, String, List}

pub record ManifestAsset : Type 0 where
  pub name : String
  pub ip : String
  pub protocol : String
  pub asset_id : String
  pub account_id : String

pub record Manifest : Type 0 where
  pub version : Int64
  pub assets : List ManifestAsset

pub record RemoteAsset : Type 0 where
  pub id : String
  pub name : String
  pub description : String
  pub ip : String
  pub protocol : String
  pub db_type : String
  pub port : Int64
  pub account_count : Int64
  pub default_account_id : String
