-- ===== src/Scheduler/Launch.antt =====
-- pam-loadtest/internal/scheduler/scheduler.go: the goroutine that `RunWithRetries` launches for a job, its retry policy and
-- its tests of error messages. `to_lower` stands for `strings.ToLower`.
mod Bounded
mod Tests
use emm_go_script.Common.{
  ltb, if◌then◌else◌, get_elem?, get_or, string_eq, nat_eq, ◌==◌, codes, Int64, lt_int, ℕ, zero,
  suc, ◌+◌, String, Bool, true, false, ◌&&◌, ◌||◌, Option, none, some, List, [], ◌∷◌,
}
use emm_go_script.Config.{Protocol, ExecutionMode, ssh, rdp, vnc, web, mysql, direct}

pub data CloseReason : Type 0 where
  completed cancelled failed : CloseReason

-- The fields of an observation that this code reads; an error is its message.
pub record Observation : Type 0 where
  pub reason : CloseReason
  pub failure : Option String

pub starts_with : List ℕ → List ℕ → Bool
starts_with [] ys = true
starts_with (x ∷ xs) [] = false
starts_with (x ∷ xs) (y ∷ ys) = x == y && starts_with xs ys

pub contains_codes : List ℕ → List ℕ → Bool
contains_codes [] part = starts_with part []
contains_codes (x ∷ xs) part =
    let later = contains_codes xs part in starts_with part (x ∷ xs) || later

-- `strings.Contains`.
unfoldable pub contains : String → String → Bool
unfolding contains_codes starts_with
contains message part = contains_codes (codes message) (codes part)

pub record ConnectRetryPolicy : Type 0 where
  pub max_retries : Int64
  pub backoffs : List Int64

pub clamp_retries : Int64 → ℕ
clamp_retries n = if lt_int n 0 then 0 else n

pub retry_backoff : ConnectRetryPolicy → ℕ → Int64
retry_backoff policy zero = 0
retry_backoff policy (suc retry) = get_or (get_elem? policy.backoffs retry) 0

module _ (to_lower : String → String) where
  pub retryable_message : Protocol → ExecutionMode → String → Bool
  retryable_message p m message =
      if p == ssh && m == direct
      then contains message "pam session connect timeout"
        || (contains message "timeout"
            || (contains message "timed out" || contains message "deadline exceeded"))
      else if p == rdp || (p == vnc || (p == web || p == mysql))
      then contains message "graphical session connect timeout"
      else false

  pub retryable_connect_timeout : Protocol → ExecutionMode → Observation → Bool
  retryable_connect_timeout p m o = elim o.reason [
    | completed ↦ false
    | cancelled ↦ false
    | failed ↦ elim o.failure [ none ↦ false | some text ↦ retryable_message p m (to_lower text) ]
  ]

  pub is_transport_failure : Option String → Bool
  is_transport_failure none = false
  is_transport_failure (some text) =
      let message = to_lower text in
      contains message "websocket"
      || (contains message "unexpected eof"
          || (contains message "connection reset" || contains message "broken pipe"))

-- What one call of the runner comes to, as the goroutine sees it: the call fails; the handle says nothing of its
-- connection; it connects; it ends before, with `waited` the answer of `waitRetry`; or the context is cancelled first.
pub data Attempt : Type 0 where
  run_failed : String → Attempt
  plain connected cancelled_first : Attempt
  ended : Observation → Bool → Attempt

-- What the goroutine does besides calling the runner.
pub data Event : Type 0 where
  retry_reported retry_succeeded retry_exhausted finalized start_failed activated : Event

-- What follows where the handle ends before it connects; `rest` is what the next attempts do.
pub after_end : ℕ → Bool → Bool → List Event → List Event
after_end retry retryable waited rest =
    if retryable
    then (if waited then retry_reported ∷ rest else retry_reported ∷ finalized ∷ start_failed ∷ [])
    else (if ltb 0 retry
        then retry_exhausted ∷ finalized ∷ start_failed ∷ []
        else finalized ∷ start_failed ∷ [])

-- One round of the loop; `on_end` is what follows where the handle ends before it connects.
pub attempt_events : ℕ → Attempt → (Observation → Bool → List Event) → List Event
attempt_events retry (run_failed _) on_end = start_failed ∷ []
attempt_events retry plain on_end = activated ∷ []
attempt_events retry connected on_end =
    if ltb 0 retry then retry_succeeded ∷ activated ∷ [] else activated ∷ []
attempt_events retry cancelled_first on_end = finalized ∷ start_failed ∷ []
attempt_events retry (ended o waited) on_end = on_end o waited

-- The loop from attempt `retry` on, with `left` retries left: `MaxRetries - retry`.
pub launch_from : (Observation → Bool) → (ℕ → Attempt) → ℕ → ℕ → List Event
launch_from retryable attempts retry zero =
    attempt_events retry (attempts retry) (λ o waited. after_end retry false waited [])
launch_from retryable attempts retry (suc left) =
    let later = launch_from retryable attempts (retry + 1) left in
    attempt_events retry (attempts retry) (λ o waited. after_end retry (retryable o) waited later)

-- The goroutine: its events, in order.
unfoldable pub launch :
    (String → String) → ConnectRetryPolicy → Protocol → ExecutionMode → (ℕ → Attempt) → List Event
unfolding launch_from attempt_events after_end clamp_retries retryable_connect_timeout
    retryable_message contains contains_codes starts_with
launch to_lower policy p m attempts =
    launch_from (retryable_connect_timeout to_lower p m) attempts 0
      (clamp_retries policy.max_retries)
