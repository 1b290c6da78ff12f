-- ===== src/Reports/Samples.antt =====
-- Numbers in place of floating point, and two jobs, for the tests.
use emm_go_script.Common.{ltb, leb, string_eq, nat_eq, ◌==◌, ℕ, ◌+◌, ◌*◌, ◌/◌, false}
use emm_go_script.Common.Sorting.{sort_by}
use emm_go_script.Config.{Job}
use emm_go_script.Reports.Evidence.{Percentile, p50, p95, p99, Floats, Observed}

abbrev percent : Percentile → ℕ
percent p50 = 50
percent p95 = 95
percent p99 = 99

abbrev pub whole_millis : Floats
whole_millis = record {
  Float = ℕ;
  zero_float = 0;
  millis = λ d. d / 1000000;
  sort_floats = sort_by ltb;
  ceil_rank = λ p n. (percent p * n + 99) / 100;
  is_nan = λ x. false;
  is_inf = λ x. false;
  le_float = leb;
  eq_float = λ x y. x == y;
}

abbrev pub ssh_job : Job
ssh_job = record { id = 1; protocol = "ssh"; mode = "direct"; asset_id = "a1"; account_id = "c1" }

abbrev pub web_job : Job
web_job = record { id = 2; protocol = "web"; mode = "browser"; asset_id = "a2"; account_id = "c2" }

abbrev pub second_ssh_job : Job
second_ssh_job = record {
  id = 3;
  protocol = "ssh";
  mode = "direct";
  asset_id = "a3";
  account_id = "c3";
}

abbrev pub lively : Observed
lively = record {
  connect_latency = 7000000;
  prepare_latency = 0;
  editor_ready_latency = 0;
  sent_bytes = 10;
  received_bytes = 20;
  activity_events = 3;
  last_activity = 1000;
}
