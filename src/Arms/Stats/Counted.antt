-- ===== src/Arms/Stats/Counted.antt =====
-- The counts after the workers have ended (generator.go, stats.go).
use mathlib.Core.List.{Perm}
use emm_go_script.Common.{
  if◌then◌else◌, int_mod, minus_one, ℕ, ◌+◌, ◌*◌, ◌%◌, ◌≡◌, refl, sym, subst, Bool, true, false,
  List, [], ◌∷◌, ◌++◌, arith,
}
use emm_go_script.Arms.Stats.{
  Counter, successful_transactions, failed_transactions, active_connections, connection_attempts,
  reconnects, connect_errors, timeout_errors, short_write_errors, io_errors, Stats, no_stats,
  Addition, add_all, Item, serve_connection, Round, refused, served, run_worker,
}
use emm_go_script.Arms.Stats.Additions.{
  sum_of, add_all-sum_of, sum_of-perm, Sums, Sums-append, Sums-same,
}
use emm_go_script.Arms.Stats.Items.{serve_connection-Sums, first_of, sent_rounds, lost_rounds}

-- The connections that have been served.
unfoldable served_rounds : List Round → ℕ
served_rounds [] = 0
served_rounds (refused ∷ rest) = served_rounds rest
served_rounds (served items ∷ rest) = 1 + served_rounds rest

abbrev opening : Bool → List Addition
opening true = (connection_attempts, 1) ∷ (reconnects, 1) ∷ (active_connections, 1) ∷ []
opening false = (connection_attempts, 1) ∷ (active_connections, 1) ∷ []

opening-Sums : (had : Bool) → Sums (opening had) (if had then 0 else 1) 1 0 0
unfolding sum_of
opening-Sums true = record { dials = refl; connections = refl; ended = refl; errors = refl }
opening-Sums false = record { dials = refl; connections = refl; ended = refl; errors = refl }

refused-Sums : Sums ((connection_attempts, 1) ∷ (connect_errors, 1) ∷ []) 0 0 0 0
unfolding sum_of
refused-Sums = record { dials = refl; connections = refl; ended = refl; errors = refl }

closing-Sums : Sums ((active_connections, minus_one) ∷ []) 0 minus_one 0 0
unfolding sum_of
closing-Sums = record { dials = refl; connections = refl; ended = refl; errors = refl }

run_worker-served :
    (had : Bool) (items : List Item) (rest : List Round)
    → run_worker had (served items ∷ rest)
      ≡ opening had
        ++ (serve_connection items
            ++ ((active_connections, minus_one) ∷ [] ++ run_worker true rest))
unfolding run_worker
run_worker-served true items rest = refl
run_worker-served false items rest = refl

first_of-served :
    (had : Bool) (items : List Item) (rest : List Round)
    → (if had then 0 else 1) + (0 + (0 + first_of true rest)) ≡ first_of had (served items ∷ rest)
unfolding first_of
first_of-served true items rest = refl
first_of-served false items rest = refl

run_worker-Sums :
    (had : Bool) (rounds : List Round)
    → Sums
        (run_worker had rounds)
        (first_of had rounds)
        (int_mod * served_rounds rounds)
        (sent_rounds rounds)
        (lost_rounds rounds)
unfolding run_worker sum_of first_of served_rounds sent_rounds lost_rounds
run_worker-Sums true [] = record { dials = refl; connections = refl; ended = refl; errors = refl }
run_worker-Sums false [] = record { dials = refl; connections = refl; ended = refl; errors = refl }
run_worker-Sums true (refused ∷ rest) =
    Sums-same
      (Sums-append ((connection_attempts, 1) ∷ (connect_errors, 1) ∷ []) (run_worker true rest)
        refused-Sums (run_worker-Sums true rest))
      (omega arith) (omega arith) (omega arith) (omega arith)
run_worker-Sums false (refused ∷ rest) =
    Sums-same
      (Sums-append ((connection_attempts, 1) ∷ (connect_errors, 1) ∷ []) (run_worker false rest)
        refused-Sums (run_worker-Sums false rest))
      (omega arith) (omega arith) (omega arith) (omega arith)
run_worker-Sums had (served items ∷ rest) =
    let after = (active_connections, minus_one) ∷ [] ++ run_worker true rest in
    let whole = Sums-append (opening had) (serve_connection items ++ after) (opening-Sums had) (
      Sums-append (serve_connection items) after (serve_connection-Sums items) (
        Sums-append ((active_connections, minus_one) ∷ []) (run_worker true rest) closing-Sums
          (run_worker-Sums true rest))) in
    subst
      (λ xs.
        Sums xs (first_of had (served items ∷ rest)) (int_mod * served_rounds (served items ∷ rest))
          (sent_rounds (served items ∷ rest)) (lost_rounds (served items ∷ rest)))
      (sym (run_worker-served had items rest))
      (Sums-same whole (first_of-served had items rest) (unfold served_rounds in omega arith)
        (unfold sent_rounds in omega arith) (unfold lost_rounds in omega arith))

-- What the workers add, one after the other.
unfoldable pub all_additions : List (List Round) → List Addition
unfolding run_worker
all_additions [] = []
all_additions (rounds ∷ rest) = run_worker false rounds ++ all_additions rest

-- The sum of an amount over the workers.
unfoldable pub over : (List Round → ℕ) → List (List Round) → ℕ
over amount [] = 0
over amount (rounds ∷ rest) = amount rounds + over amount rest

all_additions-Sums :
    (workers : List (List Round))
    → Sums
        (all_additions workers)
        (over (first_of false) workers)
        (int_mod * over served_rounds workers)
        (over sent_rounds workers)
        (over lost_rounds workers)
unfolding all_additions over sum_of
all_additions-Sums [] = record { dials = refl; connections = refl; ended = refl; errors = refl }
all_additions-Sums (rounds ∷ rest) =
    Sums-same
      (Sums-append (run_worker false rounds) (all_additions rest) (run_worker-Sums false rounds)
        (all_additions-Sums rest))
      refl (omega arith) refl refl

-- The counts of workers that have ended.
pub record Counted (workers : List (List Round)) (t : Stats) : Type 0 where
  pub dials :
      t connection_attempts
      ≡ (t connect_errors + t reconnects + over (first_of false) workers) % int_mod
  pub closed : t active_connections ≡ 0
  pub ended :
      (t successful_transactions + t failed_transactions) % int_mod
      ≡ over sent_rounds workers % int_mod
  pub errors :
      (t timeout_errors + t short_write_errors + t io_errors) % int_mod
      ≡ (t failed_transactions + over lost_rounds workers) % int_mod

-- Where all the workers have ended, and in whatever order their atomic additions took effect, the counts (modulo 2 ^ 64) are
-- consistent: each attempt to connect is counted as an error, as a reconnect or is the first connection of its worker; no
-- connection is active; each transaction is counted once, as successful or as failed; and the errors of writing are the failed
-- transactions and the heartbeats that were not written.
pub run_worker-Counted :
    (workers : List (List Round)) (xs : List Addition)
    → Perm xs (all_additions workers)
    → Counted workers (add_all xs no_stats)
run_worker-Counted workers xs p =
    let h = all_additions-Sums workers in
    let sum : (c : Counter) → add_all xs no_stats c ≡ sum_of c (all_additions workers) % int_mod =
      λ c. omega (arith, add_all-sum_of c xs no_stats (omega arith), sum_of-perm c p) in
    record {
      dials = omega (arith, h.dials, sum connection_attempts, sum connect_errors, sum reconnects);
      closed = omega (arith, h.connections, sum active_connections);
      ended = omega (arith, h.ended, sum successful_transactions, sum failed_transactions);
      errors = omega (
        arith,
        h.errors,
        sum timeout_errors,
        sum short_write_errors,
        sum io_errors,
        sum failed_transactions,
      );
    }
