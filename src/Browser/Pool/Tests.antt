-- ===== src/Browser/Pool/Tests.antt =====
-- A pool of two workers with one session each, of which one is taken; the second client cannot be made.
use emm_go_script.Common.{
  length, Distinct, ok, err, string_eq, nat_eq, mem, ℕ, zero, suc, ◌*◌, ◌<◌, ◌≡◌, refl, true, false,
  Option, none, some, [], ◌∷◌,
}
use emm_go_script.Browser.Pool.{
  Pool, unsupported_protocol, pool_closed, worker_unavailable, at_least_one, new_pool, check_run,
  receive, client_of, restart, release, close,
}
use emm_go_script.Browser.Pool.Reached.{received, Reach, created, next, Reach-exclusive, Reach-send}

abbrev made : ℕ → Option ℕ
made zero = some 7
made (suc i) = none

abbrev fresh : Pool ℕ
fresh = new_pool 2 0 made

abbrev taken : Pool ℕ
taken = record {
  closed = false;
  available = 1 ∷ [];
  clients = some 7 ∷ none ∷ [];
  sessions_per_worker = 1;
  held = 0 ∷ [];
}

receive_first : receive fresh ≡ some (0, taken)
unfolding receive new_pool
receive_first = refl

-- A client that fails is replaced, then the slot goes back behind the other.
abbrev replaced : Pool ℕ
replaced = record {
  closed = false;
  available = 1 ∷ 0 ∷ [];
  clients = some 9 ∷ none ∷ [];
  sessions_per_worker = 1;
  held = [];
}

restart_and_release : release 0 (restart 0 true false (some 9) taken) ≡ replaced
unfolding release restart
restart_and_release = refl

unavailable : client_of 1 taken ≡ err (worker_unavailable 1)
unfolding client_of
unavailable = refl

check_vnc : check_run "vnc" taken ≡ ok tt
unfolding check_run
check_vnc = refl

check_ssh : check_run "ssh" taken ≡ err (unsupported_protocol "ssh")
unfolding check_run
check_ssh = refl

check_closed : check_run "rdp" (close made taken).1 ≡ err pool_closed
unfolding check_run close
check_closed = refl

Reach-taken : Reach 2 0 made taken
Reach-taken = next created (received 0 receive_first)

holds_first : mem 0 taken.held ≡ true
unfolding mem
holds_first = refl

sessions_one : at_least_one 0 ≡ 1
unfolding at_least_one
sessions_one = refl

Reach-exclusive_example : Distinct taken.held
Reach-exclusive_example = Reach-exclusive 2 0 made Reach-taken sessions_one

Reach-send_example : length taken.available < at_least_one 2 * at_least_one 0
Reach-send_example = Reach-send 2 0 made Reach-taken 0 holds_first
