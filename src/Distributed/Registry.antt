-- ===== src/Distributed/Registry.antt =====
-- distributed/registry.go: the runs of one agent. Each method holds the mutex from its first look at the state to its
-- return, so each is one step; `Start` also starts a goroutine, which is in `executing` until it reports the outcome
-- (`finish`). A record's `ctx` is cancelled with the record or with the parent context. A run's report is its ID, its
-- status and the rest of the executor's report, of which this code reads nothing.
pub mod Entries
pub mod Invariant
pub mod Outcome
mod Tests
use emm_go_script.Common.{
  if◌then◌else◌, length, Result, ok, err, ◌>>=◌, ◌>>◌, or_fail, ◌==◌, nat_eq, string_eq, lookup, ℕ,
  String, Bool, true, false, not, ◌&&◌, ◌||◌, Option, none, some, List, [], ◌∷◌,
}
use emm_go_script.Distributed.Request.{Capabilities, RunRequest, RequestError, validate_run_request}

pub data RunStatus : Type 0 where
  pending running completed failed cancelled : RunStatus

pub record Report (D : Type 0) : Type 0 where
  pub run_id : String
  pub status : RunStatus
  pub detail : D

pub record RunRecord (D : Type 0) : Type 0 where
  pub status : RunStatus
  pub report : Option (Report D)
  pub error_text : String
  pub ctx_cancelled : Bool
  pub cancel_requested : Bool

pub record Registry (D : Type 0) : Type 0 where
  pub capabilities : Capabilities
  pub runs : List (String × RunRecord D)
  pub active : String
  pub parent_cancelled : Bool
  pub executing : List String

pub data RegistryError : Type 0 where
  refused : RequestError → RegistryError
  run_exists already_running unknown_run : RegistryError

pub record RunResponse : Type 0 where
  pub run_id : String
  pub accepted : ℕ
  pub status : RunStatus

pub record StatusResponse (D : Type 0) : Type 0 where
  pub run_id : String
  pub status : RunStatus
  pub report : Option (Report D)
  pub error_text : String

pub record CancelResponse : Type 0 where
  pub run_id : String
  pub status : RunStatus

-- The outcome that the goroutine writes: `stopped` is `cancelRequested || ctx.Err() != nil`.
pub outcome : Bool → Bool → RunStatus
outcome stopped exec_failed =
    if stopped then cancelled else if exec_failed then failed else completed

pub remove_one : String → List String → List String
remove_one id [] = []
remove_one id (k ∷ ks) = if k == id then ks else k ∷ remove_one id ks

pub is_live : RunStatus → Bool
is_live running = true
is_live pending = true
is_live _ = false

module _ {D : Type 0} where
  pub new_registry : Capabilities → Registry D
  new_registry c = record {
    capabilities = c;
    runs = [];
    active = "";
    parent_cancelled = false;
    executing = [];
  }

  pub new_record : RunRecord D
  new_record = record {
    status = running;
    report = none;
    error_text = "";
    ctx_cancelled = false;
    cancel_requested = false;
  }

  -- A write through the pointer that the map holds under `id`.
  pub update :
      String
      → (RunRecord D → RunRecord D)
      → List (String × RunRecord D)
      → List (String × RunRecord D)
  update id f [] = []
  update id f ((k, r) ∷ rest) = if k == id then (k, f r) ∷ rest else (k, r) ∷ update id f rest

  -- `Start` behind the validation.
  pub admit : Registry D → RunRequest → Result RegistryError RunResponse × Registry D
  admit r q = elim (lookup q.run_id r.runs) [
    | some _ ↦ (err run_exists, r)
    | none ↦
        if r.active == ""
        then (
          ok (record { run_id = q.run_id; accepted = length q.jobs; status = running }),
          record r {
            runs = (q.run_id, new_record) ∷ r.runs;
            active = q.run_id;
            executing = q.run_id ∷ r.executing;
          },
        )
        else (err already_running, r)
  ]

  pub start : Registry D → RunRequest → Result RegistryError RunResponse × Registry D
  unfolding admit new_record lookup
  start r q = elim (validate_run_request q r.capabilities) [
    | err e ↦ (err (refused e), r)
    | ok _ ↦ admit r q
  ]

  pub report_run : String → Bool → Bool → D → RunRecord D → RunRecord D
  report_run id parent_done exec_failed detail rec =
      let stopped = rec.cancel_requested || (rec.ctx_cancelled || parent_done) in
      let status' = outcome stopped exec_failed in
      record rec {
        status = status';
        report = some (record { run_id = id; status = status'; detail = detail });
        error_text = if not stopped && exec_failed then "run execution failed" else rec.error_text;
      }

  -- The goroutine's end, with what the executor returned.
  pub finish : Registry D → String → Bool → D → Registry D
  unfolding update report_run outcome remove_one
  finish r id exec_failed detail = record r {
    runs = update id (report_run id r.parent_cancelled exec_failed detail) r.runs;
    active = if r.active == id then "" else r.active;
    executing = remove_one id r.executing;
  }

  pub status_of : Registry D → String → Result RegistryError (StatusResponse D)
  unfolding lookup
  status_of r id = do
    rec ← or_fail (lookup id r.runs) unknown_run
    ok (record {
      run_id = id;
      status = rec.status;
      report = rec.report;
      error_text = rec.error_text;
    })

  pub request_cancel : RunRecord D → RunRecord D
  unfolding is_live
  request_cancel rec =
      if is_live rec.status
      then record rec { cancel_requested = true; ctx_cancelled = true }
      else rec

  pub cancel : Registry D → String → Result RegistryError CancelResponse × Registry D
  unfolding update request_cancel lookup
  cancel r id = elim (lookup id r.runs) [
    | none ↦ (err unknown_run, r)
    | some rec ↦ (
      ok (record {
        run_id = id;
        status = if (request_cancel rec).cancel_requested then cancelled else rec.status;
      }),
      record r { runs = update id request_cancel r.runs },
    )
  ]
