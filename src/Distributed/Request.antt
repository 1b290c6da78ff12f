-- ===== src/Distributed/Request.antt =====
-- distributed/service.go's messages, and `validateRunRequest` of distributed/registry.go. Durations are 64-bit nanosecond
-- patterns; `len` is a natural number below 2 ^ 63.
pub mod Valid
use emm_go_script.Common.{
  if◌then◌else◌, length, Result, ok, err, ◌>>=◌, ◌>>◌, guard, ◌==◌, nat_eq, string_eq, mem, Int64,
  lt_int, ℕ, ◌+◌, String, Bool, not, ◌&&◌, ◌||◌, List, [], ◌∷◌,
}
use emm_go_script.Config.{protocol_order}
use emm_go_script.Config.Load.{is_graphical, valid_interval, valid_connect_retries}

pub record Capabilities : Type 0 where
  pub version : String
  pub capacity : Int64
  pub direct_capacity : Int64
  pub browser_capacity : Int64
  pub direct_protocols : List String

pub record WireJob : Type 0 where
  pub id : Int64
  pub protocol : String
  pub mode : String
  pub asset_id : String
  pub account_id : String

pub record PamCookie : Type 0 where
  pub name : String
  pub value : String
  pub path : String
  pub domain : String
  pub secure : Bool
  pub http_only : Bool

pub record RunRequest : Type 0 where
  pub run_id : String
  pub pam_token : String
  pub pam_cookies : List PamCookie
  pub ramp_nanos : Int64
  pub hold_nanos : Int64
  pub ssh_activity_interval_nanos : Int64
  pub ssh_activity_mode : String
  pub graphical_activity_interval_nanos : List (String × Int64)
  pub continue_on_errors : Bool
  pub connection_only : Bool
  pub connect_retries : Int64
  pub seed : Int64
  pub jobs : List WireJob

pub data RequestError : Type 0 where
  run_id_required durations_required retries_out_of_range invalid_interval : RequestError
  invalid_activity_mode invalid_graphical invalid_graphical_every jobs_required : RequestError
  exceeds_capacity exceeds_direct exceeds_browser : RequestError
  missing_fields bad_protocol direct_unsupported browser_unsupported bad_mode : RequestError
  repeated_job repeated_asset repeated_account : RequestError

pub check_graphical : List (String × Int64) → Result RequestError (Unit {0})
check_graphical [] = ok tt
check_graphical ((p, nanos) ∷ rest) = do
  guard (is_graphical p) invalid_graphical
  guard (valid_interval nanos) invalid_graphical_every
  check_graphical rest

-- What the job loop has seen: the IDs, and how many jobs of each mode.
pub record Seen : Type 0 where
  pub job_ids : List Int64
  pub asset_ids : List String
  pub account_ids : List String
  pub direct_jobs : ℕ
  pub browser_jobs : ℕ

-- The switch on the mode: the counters after it, or the error.
pub check_mode : List String → WireJob → Seen → Result RequestError Seen
check_mode supported j s =
    if j.mode == "direct"
    then (do
      guard (mem j.protocol supported) direct_unsupported
      ok (record s { direct_jobs = s.direct_jobs + 1 }))
    else if j.mode == "browser"
    then (do
      guard (is_graphical j.protocol) browser_unsupported
      ok (record s { browser_jobs = s.browser_jobs + 1 }))
    else err bad_mode

pub add_ids : WireJob → Seen → Seen
add_ids j s = record s {
  job_ids = j.id ∷ s.job_ids;
  asset_ids = j.asset_id ∷ s.asset_ids;
  account_ids = j.account_id ∷ s.account_ids;
}

pub check_job : List String → WireJob → Seen → Result RequestError Seen
check_job supported j s = do
  guard (lt_int 0 j.id && not (j.asset_id == "" || j.account_id == "")) missing_fields
  guard (mem j.protocol protocol_order) bad_protocol
  s' ← check_mode supported j s
  guard (not (mem j.id s.job_ids)) repeated_job
  guard (not (mem j.asset_id s.asset_ids)) repeated_asset
  guard (not (mem j.account_id s.account_ids)) repeated_account
  ok (add_ids j s')

pub check_jobs : List String → List WireJob → Seen → Result RequestError Seen
check_jobs supported [] s = ok s
check_jobs supported (j ∷ js) s = do s' ← check_job supported j s; check_jobs supported js s'

pub nothing_seen : Seen
nothing_seen = record {
  job_ids = [];
  asset_ids = [];
  account_ids = [];
  direct_jobs = 0;
  browser_jobs = 0;
}

pub is_activity_mode : String → Bool
is_activity_mode m = m == "" || m == "output" || m == "keepalive"

unfoldable pub validate_run_request : RunRequest → Capabilities → Result RequestError (Unit {0})
unfolding check_graphical check_jobs check_job check_mode add_ids nothing_seen is_activity_mode mem
    is_graphical valid_interval valid_connect_retries
validate_run_request q c = do
  guard (not (q.run_id == "")) run_id_required
  guard (lt_int 0 q.ramp_nanos && lt_int 0 q.hold_nanos) durations_required
  guard (valid_connect_retries q.connect_retries) retries_out_of_range
  guard (valid_interval q.ssh_activity_interval_nanos) invalid_interval
  guard (is_activity_mode q.ssh_activity_mode) invalid_activity_mode
  check_graphical q.graphical_activity_interval_nanos
  guard (not (length q.jobs == 0)) jobs_required
  guard (not (lt_int c.capacity (length q.jobs))) exceeds_capacity
  s ← check_jobs c.direct_protocols q.jobs nothing_seen
  guard (not (lt_int c.direct_capacity s.direct_jobs)) exceeds_direct
  guard (not (lt_int c.browser_capacity s.browser_jobs)) exceeds_browser
