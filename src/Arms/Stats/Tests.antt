-- ===== src/Arms/Stats/Tests.antt =====
-- Two workers: one fails to dial, sends a transaction, fails to send a second one in time and connects again; the other one sends a
-- heartbeat.
use mathlib.Core.List.{Perm, perm_append_comm}
use emm_go_script.Common.{ltb, if◌then◌else◌, ℕ, ◌≡◌, refl, false, none, some, List, [], ◌∷◌, ◌++◌}
use emm_go_script.Arms.Stats.{
  bytes, reconnects, no_stats, Addition, add, add_all, network_timeout, Connection, write_payload,
  built, transaction, heartbeat, Round, refused, served, run_worker,
}
use emm_go_script.Arms.Stats.Counted.{all_additions, Counted, run_worker-Counted}

-- It takes 100 bytes at a time.
abbrev steady : ℕ → Connection
steady call left = (if ltb left 100 then left else 100, none)

abbrev late : ℕ → Connection
late call left = (1, some network_timeout)

abbrev first_worker : List Round
first_worker =
    refused
    ∷ served (transaction steady none (built 300 4) ∷ transaction late none (built 300 4) ∷ [])
    ∷ served []
    ∷ []

abbrev second_worker : List Round
second_worker = served (heartbeat steady none ∷ []) ∷ []

abbrev workers : List (List Round)
workers = first_worker ∷ second_worker ∷ []

-- All that the second worker adds comes before what the first one adds.
abbrev additions : List Addition
additions = run_worker false second_worker ++ run_worker false first_worker

additions-perm : Perm additions (all_additions workers)
unfolding all_additions run_worker
additions-perm = perm_append_comm (run_worker false second_worker) (run_worker false first_worker)

run_worker-Counted_example : Counted workers (add_all additions no_stats)
run_worker-Counted_example = run_worker-Counted workers additions additions-perm

add_all-bytes : add_all additions no_stats bytes ≡ 372
unfolding run_worker add_all add write_payload
add_all-bytes = refl

add_all-reconnects : add_all additions no_stats reconnects ≡ 1
unfolding run_worker add_all add write_payload
add_all-reconnects = refl
