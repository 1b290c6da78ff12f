-- ===== src/Arms/Stats.antt =====
-- arms-load-generator/stats.go, and the functions of generator.go that write to a connection and count: `sendTransaction`,
-- `writePayload`, `serveConnection` and `runWorker`, as far as they count. Each count is an atomic 64-bit integer of its own, so
-- that what a function does to the counts is the list of its calls of `Add`, in their order; what other workers add may come
-- between any two of them.
pub mod Writes
pub mod Additions
pub mod Items
pub mod Counted
mod Tests
use emm_go_script.Common.{
  ltb, if◌then◌else◌, string_eq, nat_eq, ◌==◌, Int64, int_mod, add_int, ℕ, zero, suc, ◌+◌, ◌-◌, ◌*◌,
  ◌%◌, Bool, true, false, Option, none, some, List, [], ◌∷◌, ◌++◌,
}

pub data ErrorKind : Type 0 where
  connect_error timeout_error short_write_error io_error : ErrorKind

-- The fields of `Stats`.
pub data Counter : Type 0 where
  successful_transactions failed_transactions frames bytes active_connections : Counter
  connection_attempts reconnects scheduler_backlog scheduled_tps : Counter
  connect_errors timeout_errors short_write_errors io_errors heartbeats : Counter

abbrev pub Stats : Type 0
Stats = Counter → Int64

-- `&Stats{}`
abbrev pub no_stats : Stats
no_stats counter = 0

unfoldable pub number_of : Counter → ℕ
number_of successful_transactions = 0
number_of failed_transactions = 1
number_of frames = 2
number_of bytes = 3
number_of active_connections = 4
number_of connection_attempts = 5
number_of reconnects = 6
number_of scheduler_backlog = 7
number_of scheduled_tps = 8
number_of connect_errors = 9
number_of timeout_errors = 10
number_of short_write_errors = 11
number_of io_errors = 12
number_of heartbeats = 13

-- A call of `Add` on a counter.
abbrev pub Addition : Type 0
Addition = Counter × Int64

unfoldable pub add : Addition → Stats → Stats
unfolding number_of
add a s = λ c. if number_of a.0 == number_of c then add_int (s c) a.1 else s c

unfoldable pub add_all : List Addition → Stats → Stats
add_all [] s = s
add_all (a ∷ rest) s = add_all rest (add a s)

-- `RecordSuccess`.
unfoldable pub record_success : ℕ → ℕ → List Addition
record_success n count =
    (successful_transactions, 1) ∷ (frames, count % int_mod) ∷ (bytes, n % int_mod) ∷ []

-- `RecordHeartbeat`.
unfoldable pub record_heartbeat : ℕ → List Addition
record_heartbeat n = (heartbeats, 1) ∷ (frames, 1) ∷ (bytes, n % int_mod) ∷ []

-- The switch of `RecordFailure`.
unfoldable pub count_failure : ErrorKind → Addition
count_failure connect_error = (connect_errors, 1)
count_failure timeout_error = (timeout_errors, 1)
count_failure short_write_error = (short_write_errors, 1)
count_failure io_error = (io_errors, 1)

-- `RecordFailure`.
unfoldable pub record_failure_kind : ErrorKind → List Addition
unfolding count_failure
record_failure_kind kind = (failed_transactions, 1) ∷ count_failure kind ∷ []

-- `RecordTransportError`.
unfoldable pub record_transport_error : ErrorKind → List Addition
record_transport_error timeout_error = (timeout_errors, 1) ∷ []
record_transport_error short_write_error = (short_write_errors, 1) ∷ []
record_transport_error connect_error = (io_errors, 1) ∷ []
record_transport_error io_error = (io_errors, 1) ∷ []

-- What a write comes to: an error, which `Timeout` says it is or not, or `io.ErrShortWrite`.
pub data WriteError : Type 0 where
  network_timeout short_write other_error : WriteError

unfoldable pub classify_write_error : WriteError → ErrorKind
classify_write_error network_timeout = timeout_error
classify_write_error short_write = short_write_error
classify_write_error other_error = io_error

-- What one call of `Write` returns for the bytes that are left: a count and an error, if there is one.
abbrev pub Connection : Type 0
Connection = ℕ → ℕ × Option WriteError

pub data Written : Type 0 where
  all_written : Written
  write_error : WriteError → Written
  no_fuel : Written

-- What follows an answer of `Write`, where `later` is what the next rounds come to.
unfoldable pub after_call : ℕ → Option WriteError → Written → Written
after_call count (some e) later = write_error e
after_call zero none later = write_error short_write
after_call (suc count) none later = later

-- The loop of `writePayload`, with `left` bytes left and fuel for its rounds; the calls of `Write` are numbered.
unfoldable pub write_rest : (ℕ → Connection) → ℕ → ℕ → ℕ → Written
unfolding after_call
write_rest connection call zero left = if left == 0 then all_written else no_fuel
write_rest connection call (suc fuel) left =
    let answer = connection call left in
    let later = write_rest connection (call + 1) fuel (left - answer.0) in
    if left == 0 then all_written else after_call answer.0 answer.1 later

-- `writePayload`; `deadline` is the error of `SetWriteDeadline`.
unfoldable pub write_payload : (ℕ → Connection) → Option WriteError → ℕ → Written
unfolding write_rest
write_payload connection (some e) n = write_error e
write_payload connection none n = write_rest connection 0 n n

-- What `sendTransaction` has to do: the transaction could not be built, or its bytes and frames.
pub data Built : Type 0 where
  not_built : Built
  built : ℕ → ℕ → Built

unfoldable pub after_write : ℕ → ℕ → Written → List Addition
unfolding record_success record_failure_kind classify_write_error
after_write n count all_written = record_success n count
after_write n count (write_error e) = record_failure_kind (classify_write_error e)
after_write n count no_fuel = []

-- `sendTransaction`.
unfoldable pub send_transaction : (ℕ → Connection) → Option WriteError → Built → List Addition
unfolding write_payload after_write record_failure_kind
send_transaction connection deadline not_built = record_failure_kind io_error
send_transaction connection deadline (built n count) =
    after_write n count (write_payload connection deadline n)

unfoldable pub after_heartbeat : Written → List Addition
unfolding record_heartbeat record_transport_error classify_write_error
after_heartbeat all_written = record_heartbeat 72
after_heartbeat (write_error e) = record_transport_error (classify_write_error e)
after_heartbeat no_fuel = []

-- The heartbeat of `serveConnection`.
unfoldable pub send_heartbeat : (ℕ → Connection) → Option WriteError → List Addition
unfolding write_payload after_heartbeat
send_heartbeat connection deadline = after_heartbeat (write_payload connection deadline 72)

-- What `serveConnection` sends, with what the connection makes of it.
pub data Item : Type 0 where
  transaction : (ℕ → Connection) → Option WriteError → Built → Item
  heartbeat : (ℕ → Connection) → Option WriteError → Item

unfoldable pub is_all_written : Written → Bool
is_all_written all_written = true
is_all_written (write_error e) = false
is_all_written no_fuel = false

-- Whether there is no error.
unfoldable pub succeeds : Item → Bool
unfolding is_all_written write_payload
succeeds (transaction connection deadline not_built) = false
succeeds (transaction connection deadline (built n count)) =
    is_all_written (write_payload connection deadline n)
succeeds (heartbeat connection deadline) = is_all_written (write_payload connection deadline 72)

-- The loop returns after the first error.
unfoldable pub up_to_error : List Item → List Item
unfolding succeeds
up_to_error [] = []
up_to_error (i ∷ rest) = let later = up_to_error rest in if succeeds i then i ∷ later else i ∷ []

unfoldable pub add_items : List Item → List Addition
unfolding send_transaction send_heartbeat
add_items [] = []
add_items (transaction connection deadline b ∷ rest) =
    send_transaction connection deadline b ++ add_items rest
add_items (heartbeat connection deadline ∷ rest) =
    send_heartbeat connection deadline ++ add_items rest

-- `serveConnection`, where the permits and the clock have it send these items, until the context ends it or an error does.
unfoldable pub serve_connection : List Item → List Addition
unfolding add_items up_to_error
serve_connection items = add_items (up_to_error items)

-- A round of `runWorker`: a dial that fails, or a connection that is served. A worker goes through a list of them, until the context
-- ends it.
pub data Round : Type 0 where
  refused : Round
  served : List Item → Round

-- `-1`
abbrev pub minus_one : Int64
minus_one = 18446744073709551615

-- `runWorker`, from its `hadConnection` on; its `RecordConnectionError` counts a connect error.
unfoldable pub run_worker : Bool → List Round → List Addition
unfolding serve_connection
run_worker had_connection [] = []
run_worker had_connection (refused ∷ rest) =
    (connection_attempts, 1) ∷ (connect_errors, 1) ∷ run_worker had_connection rest
run_worker had_connection (served items ∷ rest) =
    (connection_attempts, 1) ∷ (if had_connection then (reconnects, 1) ∷ [] else [])
    ++ (active_connections, 1) ∷ serve_connection items
    ++ (active_connections, minus_one) ∷ run_worker true rest

-- `nextBackoff`, in milliseconds.
unfoldable pub next_backoff : ℕ → ℕ
next_backoff current = if ltb 2000 (current * 2) then 2000 else current * 2
