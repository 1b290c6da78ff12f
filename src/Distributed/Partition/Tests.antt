-- ===== src/Distributed/Partition/Tests.antt =====
-- Two agents and four jobs, divided between them.
use mathlib.Core.List.{Perm}
use emm_go_script.Common.{
  All, ok, err, ℕ, String, ◌≡◌, refl, true, false, List, [], ◌∷◌, map, arith,
}
use emm_go_script.Config.{Protocol, ExecutionMode, ssh, rdp, web, mysql, direct, browser, Job}
use emm_go_script.Distributed.Partition.{
  Agent, missing_binding, normal, supports_direct_protocol, Slot, can_take, fits_at, find_slot,
  assign, partition,
}
use emm_go_script.Distributed.Partition.Bounds.{AllServe, partition-AllServe}
use emm_go_script.Distributed.Partition.Exact.{all_jobs, partition-perm}
use emm_go_script.Distributed.Partition.FirstFit.{find_slot-none}
use emm_go_script.Distributed.Partition.Room.{browser_room, assign_browser-total}

abbrev agents : List Agent
agents =
    record {
      id = "a";
      capacity = 2;
      direct_capacity = 0;
      browser_capacity = 1;
      direct_protocols = ssh ∷ [];
    }
    ∷ record {
      id = "b";
      capacity = 3;
      direct_capacity = 2;
      browser_capacity = 2;
      direct_protocols = ssh ∷ mysql ∷ [];
    }
    ∷ []

abbrev bound_job : ℕ → Protocol → ExecutionMode → String → Job
bound_job n p m a = record { id = n; protocol = p; mode = m; asset_id = a; account_id = a }

abbrev ssh_job : Job
ssh_job = bound_job 1 ssh direct "w"

abbrev web_job : Job
web_job = bound_job 2 web browser "x"

abbrev mysql_job : Job
mysql_job = bound_job 3 mysql direct "y"

abbrev rdp_job : Job
rdp_job = bound_job 4 rdp browser "z"

abbrev four_jobs : List Job
four_jobs = ssh_job ∷ web_job ∷ mysql_job ∷ rdp_job ∷ []

-- The MySQL job goes first: only one agent supports it.
abbrev four_parts : List (String × List Job)
four_parts = ("a", ssh_job ∷ web_job ∷ []) ∷ ("b", mysql_job ∷ rdp_job ∷ []) ∷ []

partition_four : partition four_jobs agents ≡ ok four_parts
unfolding partition
partition_four = refl

partition_unbound :
    partition (record ssh_job { asset_id = "" } ∷ []) agents ≡ err (missing_binding 1)
unfolding partition
partition_unbound = refl

partition-AllServe_example : AllServe (map normal agents) four_parts
partition-AllServe_example = partition-AllServe four_jobs agents partition_four

partition-perm_example : Perm (all_jobs four_parts) four_jobs
partition-perm_example = partition-perm four_jobs agents partition_four

abbrev slot : Agent → Slot
slot a = record { agent = a; total_used = 0; direct_used = 0; browser_used = 0; jobs = [] }

abbrev slots : List Slot
slots = map slot agents

find_slot-none_example : All (λ s. can_take false rdp s ≡ false) slots
find_slot-none_example =
    find_slot-none false rdp slots 0 (omega arith)
      (unfold find_slot fits_at can_take supports_direct_protocol in refl)

assign_browser-total_example :
    (out : List Slot) × (assign true (web_job ∷ rdp_job ∷ []) 0 slots ≡ ok out)
assign_browser-total_example =
    assign_browser-total (web_job ∷ rdp_job ∷ []) slots (unfold browser_room in omega arith)
