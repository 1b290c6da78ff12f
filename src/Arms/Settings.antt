-- ===== src/Arms/Settings.antt =====
-- arms-load-generator/config.go. The decoded file is an argument, and so is what the code calls of other packages:
-- `time.ParseDuration`, `strings.TrimSpace`, `strings.ToUpper` and `net.SplitHostPort`.
pub mod Sending
use emm_go_script.Common.{
  if◌then◌else◌, length, Result, ok, err, guard, ◌>>=◌, ◌>>◌, string_eq, nat_eq, ◌==◌, Int64,
  is_neg, lt_int, Bool, not, ◌||◌, Option, none, some, List, [], ◌∷◌,
}
use emm_go_script.Arms.{Bytes, TransactionConfig}

-- `rawConfig`; the fields of `transaction` are as they stand in the file.
pub record RawConfig : Type 0 where
  pub host : Bytes
  pub threads : Int64
  pub duration : Bytes
  pub target_tps : Int64
  pub ramp_up : Bytes
  pub connect_timeout : Bytes
  pub write_timeout : Bytes
  pub heartbeat_interval : Bytes
  pub stats_interval : Bytes
  pub results_file : Bytes
  pub transaction : TransactionConfig

-- `Config`; the fields that a transaction is made of are those of `transaction`.
pub record GeneratorConfig : Type 0 where
  pub host : Bytes
  pub threads : Int64
  pub duration : Int64
  pub target_tps : Int64
  pub ramp_up : Int64
  pub connect_timeout : Int64
  pub write_timeout : Int64
  pub heartbeat_interval : Int64
  pub stats_interval : Int64
  pub results_file : Bytes
  pub transaction : TransactionConfig

pub data ConfigError : Type 0 where
  bad_duration host_empty bad_host bad_threads bad_target bad_ramp_up bad_timeout bad_interval :
      ConfigError
  results_file_empty app_name_empty bad_server_id address_empty request_empty bad_status :
      ConfigError
  bad_body_size bad_chunk_size : ConfigError

abbrev is_empty : Bytes → Bool
is_empty b = length b == 0

abbrev not_positive : Int64 → Bool
not_positive n = not (lt_int 0 n)

-- The tests of `Validate`, in their order, each with the error that it gives.
unfoldable pub checks : (Bytes → Bool) → GeneratorConfig → List (Bool × ConfigError)
checks splits c =
    ((not (is_empty c.host)), host_empty)
    ∷ ((splits c.host), bad_host)
    ∷ ((not (lt_int c.threads 1 || lt_int 25000 c.threads)), bad_threads)
    ∷ ((not (is_neg c.target_tps)), bad_target)
    ∷ ((not (not_positive c.duration)), bad_duration)
    ∷ ((not (is_neg c.ramp_up || lt_int c.duration c.ramp_up)), bad_ramp_up)
    ∷ ((not (not_positive c.connect_timeout || not_positive c.write_timeout)), bad_timeout)
    ∷ ((not (not_positive c.heartbeat_interval || not_positive c.stats_interval)), bad_interval)
    ∷ ((not (is_empty c.results_file)), results_file_empty)
    ∷ ((not (is_empty c.transaction.app_name)), app_name_empty)
    ∷ ((not (not_positive c.transaction.server_id)), bad_server_id)
    ∷ (
      (not (is_empty c.transaction.client_ip || is_empty c.transaction.server_address)),
      address_empty,
    )
    ∷ (
      (not (
          is_empty c.transaction.request_method
          || is_empty c.transaction.request_path
          || is_empty c.transaction.request_host)),
      request_empty,
    )
    ∷ (
      (not (lt_int c.transaction.response_status 100 || lt_int 599 c.transaction.response_status)),
      bad_status,
    )
    ∷ ((not (is_neg c.transaction.response_body_size)), bad_body_size)
    ∷ ((not (is_neg c.transaction.response_chunk_size)), bad_chunk_size)
    ∷ []

-- The first test that fails gives its error.
unfoldable pub check_all : List (Bool × ConfigError) → Result ConfigError (Unit {0})
check_all [] = ok tt
check_all ((test, failure) ∷ rest) = guard test failure >> check_all rest

-- `Validate`.
unfoldable pub validate_config : (Bytes → Bool) → GeneratorConfig → Result ConfigError (Unit {0})
unfolding checks check_all
validate_config splits c = check_all (checks splits c)

-- `HighThreadWarning`.
pub high_thread_warning : GeneratorConfig → Bool
high_thread_warning c = lt_int 20000 c.threads

module _ (parse_duration : Bytes → Option Int64) (trim upper : Bytes → Bytes)
    (splits : Bytes → Bool) where
  pub positive_duration : Bytes → Result ConfigError Int64
  positive_duration text = elim (parse_duration text) [
    | none ↦ err bad_duration
    | some d ↦ if not_positive d then err bad_duration else ok d
  ]

  pub non_negative_duration : Bytes → Result ConfigError Int64
  non_negative_duration text = elim (parse_duration text) [
    | none ↦ err bad_duration
    | some d ↦ if is_neg d then err bad_duration else ok d
  ]

  pub trimmed : TransactionConfig → TransactionConfig
  trimmed t = record t {
    app_name = trim t.app_name;
    client_ip = trim t.client_ip;
    server_address = trim t.server_address;
    request_method = upper (trim t.request_method);
    request_host = trim t.request_host;
  }

  -- `LoadConfig`, of the decoded file.
  pub load_config : RawConfig → Result ConfigError GeneratorConfig
  unfolding positive_duration non_negative_duration trimmed validate_config
  load_config raw = do
    duration ← positive_duration raw.duration
    ramp_up ← non_negative_duration raw.ramp_up
    connect_timeout ← positive_duration raw.connect_timeout
    write_timeout ← positive_duration raw.write_timeout
    heartbeat_interval ← positive_duration raw.heartbeat_interval
    stats_interval ← positive_duration raw.stats_interval
    let config : GeneratorConfig = record {
      host = trim raw.host;
      threads = raw.threads;
      duration = duration;
      target_tps = raw.target_tps;
      ramp_up = ramp_up;
      connect_timeout = connect_timeout;
      write_timeout = write_timeout;
      heartbeat_interval = heartbeat_interval;
      stats_interval = stats_interval;
      results_file = trim raw.results_file;
      transaction = trimmed raw.transaction;
    } in
        validate_config splits config >> ok config
