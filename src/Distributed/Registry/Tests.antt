-- ===== src/Distributed/Registry/Tests.antt =====
-- One agent and two runs.
use emm_go_script.Common.{
  ok, err, ◌==◌, nat_eq, string_eq, mem, lookup, String, ◌≡◌, refl, true, false, none, some, [],
  ◌∷◌, arith,
}
use emm_go_script.Distributed.Request.{Capabilities, WireJob, RunRequest, validate_run_request}
use emm_go_script.Distributed.Request.Valid.{IsAccepted, validate-IsAccepted}
use emm_go_script.Distributed.Registry.{
  running, failed, cancelled, RunRecord, Registry, RegistryError, outcome, is_live, new_registry,
  new_record, update, admit, start, report_run, finish, status_of, cancel,
}
use emm_go_script.Distributed.Registry.Invariant.{
  starts, cancels, finishes, Reach, created, next, Inv, Step-Inv, Reach-Inv,
}
use emm_go_script.Distributed.Registry.Outcome.{
  start_busy, finish-cancel, start-finish, Step-lookup_ended,
}

abbrev agent : Capabilities
agent = record {
  version = "1";
  capacity = 2;
  direct_capacity = 1;
  browser_capacity = 1;
  direct_protocols = "ssh" ∷ [];
}

abbrev one_job : WireJob
one_job = record { id = 1; protocol = "ssh"; mode = "direct"; asset_id = "x"; account_id = "y" }

abbrev request : String → RunRequest
request id = record {
  run_id = id;
  pam_token = "";
  pam_cookies = [];
  ramp_nanos = 10;
  hold_nanos = 10;
  ssh_activity_interval_nanos = 1000000000;
  ssh_activity_mode = "";
  graphical_activity_interval_nanos = [];
  continue_on_errors = false;
  connection_only = false;
  connect_retries = 0;
  seed = 1;
  jobs = one_job ∷ [];
}

request_valid : (id : String) → (id == "") ≡ false → validate_run_request (request id) agent ≡ ok tt
unfolding validate_run_request
request_valid id h = rw h

validate-IsAccepted_example : IsAccepted (request "r") agent
validate-IsAccepted_example =
    validate-IsAccepted (request "r") agent (omega arith) (omega arith) (omega arith) (omega arith)
      (request_valid "r" refl)

abbrev first : Registry (Unit {0})
first = new_registry agent

abbrev second : Registry (Unit {0})
second = (start first (request "r")).1

second-Reach : Reach agent second
second-Reach = next created (starts (request "r"))

Reach-Inv_example : Inv second
Reach-Inv_example = Reach-Inv second-Reach

executing_r : mem "r" second.executing ≡ true
unfolding start new_registry admit mem validate_run_request lookup
executing_r = refl

start_busy_example : (e : RegistryError) × (start second (request "s") ≡ (err e, second))
unfolding start new_registry admit mem validate_run_request lookup
start_busy_example = start_busy second (request "s") (Reach-Inv second-Reach) (cc)

start-finish_example :
    (start (finish second "r" true tt) (request "s")).0
    ≡ ok (record { run_id = "s"; accepted = 1; status = running })
start-finish_example =
    start-finish second "r" true tt (request "s") (Reach-Inv second-Reach) executing_r
      (unfold start new_registry admit validate_run_request lookup in refl)
      (unfold start finish update new_registry admit validate_run_request lookup in refl)

abbrev first_record : RunRecord (Unit {0})
first_record = record {
  status = running;
  report = none;
  error_text = "";
  ctx_cancelled = false;
  cancel_requested = false;
}

lookup_r : lookup "r" second.runs ≡ some first_record
unfolding start new_registry admit validate_run_request lookup new_record
lookup_r = refl

finish-cancel_example :
    ((cancel second "r").0 ≡ ok (record { run_id = "r"; status = cancelled }))
    × (status_of (finish (cancel second "r").1 "r" false tt) "r"
        ≡ ok (record {
          run_id = "r";
          status = cancelled;
          report = some (record { run_id = "r"; status = cancelled; detail = tt });
          error_text = "";
        }))
finish-cancel_example = finish-cancel second "r" first_record false tt lookup_r refl

abbrev third : Registry (Unit {0})
third = finish second "r" true tt

abbrev ended_record : RunRecord (Unit {0})
ended_record = record first_record {
  status = failed;
  report = some (record { run_id = "r"; status = failed; detail = tt });
  error_text = "run execution failed";
}

lookup_ended : lookup "r" third.runs ≡ some ended_record
unfolding start finish update report_run outcome new_registry admit validate_run_request lookup
    new_record
lookup_ended = refl

third-Inv : Inv third
third-Inv = Step-Inv (finishes "r" true tt executing_r) (Reach-Inv second-Reach)

Step-lookup_ended_example : lookup "r" (cancel third "r").1.runs ≡ some ended_record
Step-lookup_ended_example =
    Step-lookup_ended "r" ended_record (cancels "r") third-Inv lookup_ended (unfold is_live in refl)

status_third :
    status_of third "r"
    ≡ ok (record {
      run_id = "r";
      status = failed;
      report = some (record { run_id = "r"; status = failed; detail = tt });
      error_text = "run execution failed";
    })
status_third = unfold status_of in rw lookup_ended
