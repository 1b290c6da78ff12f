-- ===== src/Scheduler/Launch/Tests.antt =====
-- A direct SSH job whose first attempt times out and whose second connects.
use emm_go_script.Common.{ℕ, zero, suc, ◌≤◌, String, ◌≡◌, refl, true, some, [], ◌∷◌}
use emm_go_script.Config.{ssh, direct}
use emm_go_script.Scheduler.Launch.{
  failed, Observation, starts_with, contains_codes, contains, ConnectRetryPolicy, clamp_retries,
  retry_backoff, is_transport_failure, Attempt, connected, ended, retry_reported, retry_succeeded,
  retry_exhausted, finalized, start_failed, activated, launch,
}
use emm_go_script.Scheduler.Launch.Bounded.{retries, endings, launch-Within}

abbrev same : String → String
same s = s

abbrev timed_out : Observation
timed_out = record { reason = failed; failure = some "dial: timed out" }

abbrev refused : Observation
refused = record { reason = failed; failure = some "refused" }

abbrev policy : ConnectRetryPolicy
policy = record { max_retries = 2; backoffs = 5 ∷ 7 ∷ [] }

abbrev second_connects : ℕ → Attempt
second_connects zero = ended timed_out true
second_connects (suc n) = connected

launch_second :
    launch same policy ssh direct second_connects
    ≡ retry_reported ∷ retry_succeeded ∷ activated ∷ []
unfolding launch
launch_second = refl

launch_exhausted :
    launch same policy ssh direct (λ n. ended timed_out true)
    ≡ retry_reported ∷ retry_reported ∷ retry_exhausted ∷ finalized ∷ start_failed ∷ []
unfolding launch
launch_exhausted = refl

launch-refused :
    launch same policy ssh direct (λ n. ended refused true) ≡ finalized ∷ start_failed ∷ []
unfolding launch
launch-refused = refl

backoff_second : retry_backoff policy 2 ≡ 7
unfolding retry_backoff
backoff_second = refl

reset : is_transport_failure same (some "read: connection reset by peer") ≡ true
unfolding is_transport_failure contains contains_codes starts_with
reset = refl

launch-Within_example :
    (retries (launch same policy ssh direct (λ n. ended timed_out true))
      ≤ clamp_retries policy.max_retries)
    × (endings (launch same policy ssh direct (λ n. ended timed_out true)) ≡ 1)
launch-Within_example = launch-Within same policy ssh direct (λ n. ended timed_out true)
