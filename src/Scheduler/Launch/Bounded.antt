-- ===== src/Scheduler/Launch/Bounded.antt =====
-- The retries and the ends of a launch (scheduler.go).
use emm_go_script.Common.{
  ltb, Bool-cases, ℕ, zero, suc, ◌+◌, ◌≤◌, String, ◌≡◌, refl, inl, inr, Bool, true, false, List, [],
  ◌∷◌, arith,
}
use emm_go_script.Config.{Protocol, ExecutionMode}
use emm_go_script.Scheduler.Launch.{
  Observation, ConnectRetryPolicy, clamp_retries, retryable_connect_timeout, Attempt, run_failed,
  plain, connected, cancelled_first, ended, Event, retry_reported, start_failed, activated,
  after_end, attempt_events, launch_from, launch,
}

pub retries : List Event → ℕ
retries [] = 0
retries (retry_reported ∷ es) = suc (retries es)
retries (_ ∷ es) = retries es

-- The sessions that are handed over and the failures that are recorded.
pub endings : List Event → ℕ
endings [] = 0
endings (start_failed ∷ es) = suc (endings es)
endings (activated ∷ es) = suc (endings es)
endings (_ ∷ es) = endings es

abbrev Within : ℕ → List Event → Type 0
Within left es = (retries es ≤ left) × (endings es ≡ 1)

after_end-Within :
    (retry left : ℕ) (retryable waited : Bool) (rest : List Event)
    → Within left rest
    → Within (suc left) (after_end retry retryable waited rest)
unfolding after_end retries endings
after_end-Within retry left true true rest h = (omega (arith, h.0), h.1)
after_end-Within retry left true false rest h = (omega arith, refl)
after_end-Within retry left false waited rest h = elim (Bool-cases (ltb 0 retry)) [
  | inl t ↦ rw (t, after_end) (omega arith, refl)
  | inr f ↦ rw (f, after_end) (omega arith, refl)
]

after_end-Within_last : (retry : ℕ) (waited : Bool) → Within 0 (after_end retry false waited [])
unfolding after_end retries endings
after_end-Within_last retry waited = elim (Bool-cases (ltb 0 retry)) [
  | inl t ↦ rw (t, after_end) (omega arith, refl)
  | inr f ↦ rw (f, after_end) (omega arith, refl)
]

attempt_events-Within :
    (left retry : ℕ) (a : Attempt) (on_end : Observation → Bool → List Event)
    → ((o : Observation) (waited : Bool) → Within left (on_end o waited))
    → Within left (attempt_events retry a on_end)
unfolding attempt_events retries endings
attempt_events-Within left retry (run_failed _) on_end h = (omega arith, refl)
attempt_events-Within left retry plain on_end h = (omega arith, refl)
attempt_events-Within left retry connected on_end h = elim (Bool-cases (ltb 0 retry)) [
  | inl t ↦ rw (t, attempt_events) (omega arith, refl)
  | inr f ↦ rw (f, attempt_events) (omega arith, refl)
]
attempt_events-Within left retry cancelled_first on_end h = (omega arith, refl)
attempt_events-Within left retry (ended o waited) on_end h = h o waited

launch_from-Within :
    (retryable : Observation → Bool) (attempts : ℕ → Attempt) (retry left : ℕ)
    → Within left (launch_from retryable attempts retry left)
unfolding launch_from
launch_from-Within retryable attempts retry zero =
    attempt_events-Within 0 retry (attempts retry) _
      (λ o waited. after_end-Within_last retry waited)
launch_from-Within retryable attempts retry (suc left) =
    attempt_events-Within (suc left) retry (attempts retry) _ (λ o waited.
      after_end-Within retry left (retryable o) waited
        (launch_from retryable attempts (retry + 1) left)
        (launch_from-Within retryable attempts (retry + 1) left))

-- A job that is launched is retried at most `MaxRetries` times (never where that is negative), whatever its attempts come
-- to, and it ends in exactly one way: as one active session or as one start failure.
pub launch-Within :
    (to_lower : String → String) (policy : ConnectRetryPolicy) (p : Protocol) (m : ExecutionMode)
    → (attempts : ℕ → Attempt)
    → (retries (launch to_lower policy p m attempts) ≤ clamp_retries policy.max_retries)
      × (endings (launch to_lower policy p m attempts) ≡ 1)
unfolding launch
launch-Within to_lower policy p m attempts =
    launch_from-Within (retryable_connect_timeout to_lower p m) attempts 0
      (clamp_retries policy.max_retries)
