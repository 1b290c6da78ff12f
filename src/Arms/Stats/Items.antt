-- ===== src/Arms/Stats/Items.antt =====
-- What the items and the rounds of a worker come to (generator.go, stats.go).
use emm_go_script.Common.{
  string_eq, nat_eq, ℕ, ◌+◌, refl, ◌≢◌, Bool, true, false, Option, List, [], ◌∷◌, arith,
}
use emm_go_script.Arms.Stats.{
  record_success, record_heartbeat, count_failure, record_failure_kind, record_transport_error,
  WriteError, network_timeout, short_write, other_error, classify_write_error, Connection, Written,
  all_written, write_error, no_fuel, write_payload, Built, not_built, built, after_write,
  send_transaction, after_heartbeat, send_heartbeat, Item, transaction, heartbeat, up_to_error,
  add_items, serve_connection, Round, refused, served,
}
use emm_go_script.Arms.Stats.Writes.{write_payload-total}
use emm_go_script.Arms.Stats.Additions.{sum_of, Sums, Sums-append, Sums-same}

after_write-Sums : (n count : ℕ) (w : Written) → w ≢ no_fuel → Sums (after_write n count w) 0 0 1 0
unfolding after_write sum_of record_success record_failure_kind count_failure classify_write_error
after_write-Sums n count all_written h = record {
  dials = refl;
  connections = refl;
  ended = refl;
  errors = refl;
}
after_write-Sums n count (write_error network_timeout) h = record {
  dials = refl;
  connections = refl;
  ended = refl;
  errors = refl;
}
after_write-Sums n count (write_error short_write) h = record {
  dials = refl;
  connections = refl;
  ended = refl;
  errors = refl;
}
after_write-Sums n count (write_error other_error) h = record {
  dials = refl;
  connections = refl;
  ended = refl;
  errors = refl;
}
after_write-Sums n count no_fuel h = absurd (h refl)

send_transaction-Sums :
    (connection : ℕ → Connection) (deadline : Option WriteError) (b : Built)
    → Sums (send_transaction connection deadline b) 0 0 1 0
unfolding send_transaction sum_of record_failure_kind count_failure
send_transaction-Sums connection deadline not_built = record {
  dials = refl;
  connections = refl;
  ended = refl;
  errors = refl;
}
send_transaction-Sums connection deadline (built n count) =
    after_write-Sums n count (write_payload connection deadline n)
      (write_payload-total connection deadline n)

-- A heartbeat that is not written is counted as an error alone.
unfoldable pub lost_of : Written → ℕ
lost_of all_written = 0
lost_of (write_error e) = 1
lost_of no_fuel = 0

after_heartbeat-Sums : (w : Written) → Sums (after_heartbeat w) 0 0 0 (lost_of w)
unfolding after_heartbeat sum_of record_heartbeat record_transport_error classify_write_error
    lost_of
after_heartbeat-Sums all_written = record {
  dials = refl;
  connections = refl;
  ended = refl;
  errors = refl;
}
after_heartbeat-Sums (write_error network_timeout) = record {
  dials = refl;
  connections = refl;
  ended = refl;
  errors = refl;
}
after_heartbeat-Sums (write_error short_write) = record {
  dials = refl;
  connections = refl;
  ended = refl;
  errors = refl;
}
after_heartbeat-Sums (write_error other_error) = record {
  dials = refl;
  connections = refl;
  ended = refl;
  errors = refl;
}
after_heartbeat-Sums no_fuel = record {
  dials = refl;
  connections = refl;
  ended = refl;
  errors = refl;
}

-- The transactions among the items, and the heartbeats that were not written.
unfoldable pub sent_items : List Item → ℕ
sent_items [] = 0
sent_items (transaction connection deadline b ∷ rest) = 1 + sent_items rest
sent_items (heartbeat connection deadline ∷ rest) = sent_items rest

unfoldable pub lost_items : List Item → ℕ
unfolding lost_of
lost_items [] = 0
lost_items (transaction connection deadline b ∷ rest) = lost_items rest
lost_items (heartbeat connection deadline ∷ rest) =
    lost_of (write_payload connection deadline 72) + lost_items rest

add_items-Sums :
    (items : List Item) → Sums (add_items items) 0 0 (sent_items items) (lost_items items)
unfolding add_items sum_of sent_items lost_items send_heartbeat
add_items-Sums [] = record { dials = refl; connections = refl; ended = refl; errors = refl }
add_items-Sums (transaction connection deadline b ∷ rest) =
    Sums-same
      (Sums-append (send_transaction connection deadline b) (add_items rest)
        (send_transaction-Sums connection deadline b) (add_items-Sums rest))
      refl refl refl (omega arith)
add_items-Sums (heartbeat connection deadline ∷ rest) =
    Sums-same
      (Sums-append (send_heartbeat connection deadline) (add_items rest)
        (after_heartbeat-Sums (write_payload connection deadline 72)) (add_items-Sums rest))
      refl refl (omega arith) refl

pub serve_connection-Sums :
    (items : List Item)
    → Sums
        (serve_connection items)
        0
        0
        (sent_items (up_to_error items))
        (lost_items (up_to_error items))
unfolding serve_connection
serve_connection-Sums items = add_items-Sums (up_to_error items)

-- The first connections of a worker: 1 where it has had none and a dial succeeds.
unfoldable pub first_of : Bool → List Round → ℕ
first_of true rounds = 0
first_of false [] = 0
first_of false (refused ∷ rest) = first_of false rest
first_of false (served items ∷ rest) = 1

-- The transactions of a worker's rounds, and the heartbeats that were not written.
unfoldable pub sent_rounds : List Round → ℕ
unfolding sent_items up_to_error
sent_rounds [] = 0
sent_rounds (refused ∷ rest) = sent_rounds rest
sent_rounds (served items ∷ rest) = sent_items (up_to_error items) + sent_rounds rest

unfoldable pub lost_rounds : List Round → ℕ
unfolding lost_items up_to_error
lost_rounds [] = 0
lost_rounds (refused ∷ rest) = lost_rounds rest
lost_rounds (served items ∷ rest) = lost_items (up_to_error items) + lost_rounds rest
