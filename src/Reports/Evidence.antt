-- ===== src/Reports/Evidence.antt =====
-- `Measurements` and its operations (report.go), with the observation of session/session.go. A time is the number of its
-- nanoseconds after the zero time. Floating point is an argument: the numbers, the operations that the code applies to them
-- and `sort.Float64s`.
pub mod Checks
use emm_go_script.Common.{
  ltb, if◌then◌else◌, length, get_elem?, get_or, Eq, string_eq, nat_eq, ◌==◌, Int64, is_neg,
  add_int, sub_int, lt_int, ℕ, ◌-◌, Bool, not, ◌&&◌, List, [], ◌∷◌, ◌++◌,
}

abbrev pub Time : Type 0
Time = ℕ

pub data Percentile : Type 0 where
  p50 p95 p99 : Percentile

pub record Floats : Type 1 where
  pub Float : Type 0
  pub zero_float : Float
  -- A duration in milliseconds.
  pub millis : Int64 → Float
  pub sort_floats : List Float → List Float
  -- `int(math.Ceil(percentile * float64(n)))`
  pub ceil_rank : Percentile → ℕ → Int64
  pub is_nan : Float → Bool
  pub is_inf : Float → Bool
  pub le_float : Float → Float → Bool
  pub eq_float : Float → Float → Bool

-- The three quantiles of one list of samples.
pub record Quantiles (F : Type 0) : Type 0 where
  pub at_p50 : F
  pub at_p95 : F
  pub at_p99 : F

pub record Measurements (F : Type 0) : Type 0 where
  pub connect_latency : Quantiles F
  pub prepare : Quantiles F
  pub editor_ready : Quantiles F
  pub sent_bytes : Int64
  pub received_bytes : Int64
  pub activity_events : Int64
  pub active_sessions : Int64
  pub bidirectional_sessions : Int64
  pub last_activity_sessions : Int64
  pub last_activity : Time
  pub connect_latency_samples : List F
  pub prepare_samples : List F
  pub editor_ready_samples : List F

-- The fields of an observation that are measured.
pub record Observed : Type 0 where
  pub connect_latency : Int64
  pub prepare_latency : Int64
  pub editor_ready_latency : Int64
  pub sent_bytes : Int64
  pub received_bytes : Int64
  pub activity_events : Int64
  pub last_activity : Time

-- `if b.After(a) { a = b }`
unfoldable pub later_of : Time → Time → Time
later_of a b = if ltb a b then b else a

-- `if test { n++ }`
unfoldable pub count_if : Bool → Int64 → Int64
count_if test n = if test then add_int n 1 else n

module _ (fl : Floats) where
  abbrev no_quantiles : Quantiles fl.Float
  no_quantiles = record { at_p50 = fl.zero_float; at_p95 = fl.zero_float; at_p99 = fl.zero_float }

  -- `Measurements{}`
  abbrev pub no_measurements : Measurements fl.Float
  no_measurements = record {
    connect_latency = no_quantiles;
    prepare = no_quantiles;
    editor_ready = no_quantiles;
    sent_bytes = 0;
    received_bytes = 0;
    activity_events = 0;
    active_sessions = 0;
    bidirectional_sessions = 0;
    last_activity_sessions = 0;
    last_activity = 0;
    connect_latency_samples = [];
    prepare_samples = [];
    editor_ready_samples = [];
  }

  unfoldable pub add_sample : Int64 → List fl.Float → List fl.Float
  add_sample latency samples =
      if lt_int 0 latency then samples ++ fl.millis latency ∷ [] else samples

  -- `addObservation`.
  unfoldable pub add_observation : Measurements fl.Float → Observed → Measurements fl.Float
  unfolding add_sample count_if later_of
  add_observation t o = record t {
    connect_latency_samples = add_sample o.connect_latency t.connect_latency_samples;
    prepare_samples = add_sample o.prepare_latency t.prepare_samples;
    editor_ready_samples = add_sample o.editor_ready_latency t.editor_ready_samples;
    sent_bytes = add_int t.sent_bytes o.sent_bytes;
    received_bytes = add_int t.received_bytes o.received_bytes;
    activity_events = add_int t.activity_events o.activity_events;
    active_sessions = count_if (lt_int 0 o.activity_events) t.active_sessions;
    bidirectional_sessions =
        count_if (lt_int 0 o.sent_bytes && lt_int 0 o.received_bytes) t.bidirectional_sessions;
    last_activity_sessions = count_if (not (o.last_activity == 0)) t.last_activity_sessions;
    last_activity = later_of t.last_activity o.last_activity;
  }

  -- `mergeMeasurements`.
  unfoldable pub merge_measurements :
      Measurements fl.Float → Measurements fl.Float → Measurements fl.Float
  unfolding later_of
  merge_measurements t v = record t {
    sent_bytes = add_int t.sent_bytes v.sent_bytes;
    received_bytes = add_int t.received_bytes v.received_bytes;
    activity_events = add_int t.activity_events v.activity_events;
    active_sessions = add_int t.active_sessions v.active_sessions;
    bidirectional_sessions = add_int t.bidirectional_sessions v.bidirectional_sessions;
    last_activity_sessions = add_int t.last_activity_sessions v.last_activity_sessions;
    last_activity = later_of t.last_activity v.last_activity;
    connect_latency_samples = t.connect_latency_samples ++ v.connect_latency_samples;
    prepare_samples = t.prepare_samples ++ v.prepare_samples;
    editor_ready_samples = t.editor_ready_samples ++ v.editor_ready_samples;
  }

  -- `value := m[k]; change(&value); m[k] = value`
  unfoldable pub change_at {κ} :
      {K : Type κ} ⦃same : Eq K⦄
      → K
      → (Measurements fl.Float → Measurements fl.Float)
      → List (K × Measurements fl.Float)
      → List (K × Measurements fl.Float)
  change_at k f [] = (k, f no_measurements) ∷ []
  change_at k f ((j, m) ∷ rest) =
      let later = change_at k f rest in if j == k then (j, f m) ∷ rest else (j, m) ∷ later

  -- `mergeMeasurementMap`.
  unfoldable pub merge_measurement_map {κ} :
      {K : Type κ} ⦃same : Eq K⦄
      → List (K × Measurements fl.Float)
      → List (K × Measurements fl.Float)
      → List (K × Measurements fl.Float)
  unfolding change_at merge_measurements
  merge_measurement_map target [] = target
  merge_measurement_map target ((k, v) ∷ rest) =
      merge_measurement_map (change_at k (λ m. merge_measurements m v) target) rest

  -- The index that `quantile` reads, of `n` values with n > 0.
  unfoldable pub quantile_index : ℕ → Int64 → ℕ
  quantile_index n rank =
      let index = sub_int rank 1 in if is_neg index then 0 else if ltb index n then index else n - 1

  unfoldable pub quantile : List fl.Float → Percentile → fl.Float
  unfolding quantile_index
  quantile [] p = fl.zero_float
  quantile (x ∷ xs) p =
      get_or
        (get_elem? (x ∷ xs) (quantile_index (length (x ∷ xs)) (fl.ceil_rank p (length (x ∷ xs)))))
        fl.zero_float

  unfoldable pub quantiles : List fl.Float → Quantiles fl.Float
  unfolding quantile
  quantiles values = record {
    at_p50 = quantile values p50;
    at_p95 = quantile values p95;
    at_p99 = quantile values p99;
  }

  -- `finalizedMeasurements`.
  unfoldable pub finalized_measurements : Measurements fl.Float → Measurements fl.Float
  unfolding quantiles
  finalized_measurements v =
      let connects = fl.sort_floats v.connect_latency_samples in
      let prepares = fl.sort_floats v.prepare_samples in
      let editors = fl.sort_floats v.editor_ready_samples in
      record v {
        connect_latency_samples = connects;
        prepare_samples = prepares;
        editor_ready_samples = editors;
        connect_latency = quantiles connects;
        prepare = quantiles prepares;
        editor_ready = quantiles editors;
      }

  -- `finalizedMeasurementMap`.
  unfoldable pub finalized_measurement_map {κ} :
      {K : Type κ} → List (K × Measurements fl.Float) → List (K × Measurements fl.Float)
  unfolding finalized_measurements
  finalized_measurement_map [] = []
  finalized_measurement_map ((k, v) ∷ rest) =
      (k, finalized_measurements v) ∷ finalized_measurement_map rest
