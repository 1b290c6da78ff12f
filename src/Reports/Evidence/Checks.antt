-- ===== src/Reports/Evidence/Checks.antt =====
-- The tests of `Measurements`: `validMeasurements`, where `now` is the time of the call, and `equalMeasurements` (report.go).
use emm_go_script.Common.{
  ltb, string_eq, nat_eq, ◌==◌, is_neg, ◌+◌, Bool, true, false, not, ◌&&◌, ◌||◌, List, [], ◌∷◌,
  ◌++◌,
}
use emm_go_script.Reports.Evidence.{Time, Floats, Quantiles, Measurements, finalized_measurements}

-- `5*time.Minute`
abbrev five_minutes : Time
five_minutes = 300000000000

module _ (fl : Floats) where
  pub has_nan : Quantiles fl.Float → Bool
  has_nan q = fl.is_nan q.at_p50 || fl.is_nan q.at_p95 || fl.is_nan q.at_p99

  pub is_ordered : Quantiles fl.Float → Bool
  is_ordered q = fl.le_float q.at_p50 q.at_p95 && fl.le_float q.at_p95 q.at_p99

  pub valid_samples : List fl.Float → Bool
  valid_samples [] = true
  valid_samples (x ∷ xs) =
      not (fl.le_float x fl.zero_float || fl.is_nan x || fl.is_inf x) && valid_samples xs

  unfoldable pub valid_measurements : Time → Measurements fl.Float → Bool
  unfolding valid_samples has_nan is_ordered
  valid_measurements now v =
      not (is_neg v.sent_bytes || is_neg v.received_bytes || is_neg v.activity_events)
      && not (
          is_neg v.active_sessions
          || is_neg v.bidirectional_sessions
          || is_neg v.last_activity_sessions)
      && not (ltb (now + five_minutes) v.last_activity)
      && not (has_nan v.connect_latency || has_nan v.prepare || has_nan v.editor_ready)
      && valid_samples v.connect_latency_samples
      && valid_samples (v.prepare_samples ++ v.editor_ready_samples)
      && (is_ordered v.connect_latency && is_ordered v.prepare && is_ordered v.editor_ready)

  pub same_quantiles : Quantiles fl.Float → Quantiles fl.Float → Bool
  same_quantiles a b =
      fl.eq_float a.at_p50 b.at_p50
      && fl.eq_float a.at_p95 b.at_p95
      && fl.eq_float a.at_p99 b.at_p99

  -- The test of the lengths and the loop over the values.
  pub same_samples : List fl.Float → List fl.Float → Bool
  same_samples [] [] = true
  same_samples (x ∷ xs) (y ∷ ys) = fl.eq_float x y && same_samples xs ys
  same_samples [] (y ∷ ys) = false
  same_samples (x ∷ xs) [] = false

  same_finalized : Measurements fl.Float → Measurements fl.Float → Bool
  unfolding same_quantiles same_samples
  same_finalized a b =
      same_quantiles a.connect_latency b.connect_latency
      && same_quantiles a.prepare b.prepare
      && same_quantiles a.editor_ready b.editor_ready
      && (a.sent_bytes == b.sent_bytes
          && a.received_bytes == b.received_bytes
          && a.activity_events == b.activity_events)
      && (a.active_sessions == b.active_sessions
          && a.bidirectional_sessions == b.bidirectional_sessions)
      && (a.last_activity_sessions == b.last_activity_sessions
          && a.last_activity == b.last_activity)
      && same_samples a.connect_latency_samples b.connect_latency_samples
      && same_samples a.prepare_samples b.prepare_samples
      && same_samples a.editor_ready_samples b.editor_ready_samples

  unfoldable pub equal_measurements : Measurements fl.Float → Measurements fl.Float → Bool
  unfolding same_finalized finalized_measurements
  equal_measurements left right =
      same_finalized (finalized_measurements fl left) (finalized_measurements fl right)
