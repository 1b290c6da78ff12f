-- ===== src/Distributed/Partition.antt =====
-- distributed/partition.go. The three `used` slices and the entry of the result map that belong to one index are kept
-- together in a `Slot`: agent IDs are distinct, so each index has its own entry. Capacities have passed the sign check, so
-- where a count of assigned jobs meets one, the order of ℕ is Go's; the sums of capacities wrap around.
pub mod Slots
pub mod Bounds
pub mod Exact
pub mod FirstFit
pub mod Room
mod Tests
use emm_go_script.Common.{
  ltb, if◌then◌else◌, length, Result, ok, err, ◌>>=◌, ◌>>◌, guard, ◌==◌, nat_eq, string_eq, mem,
  Int64, is_neg, add_int, lt_int, ℕ, zero, suc, ◌+◌, ◌%◌, String, Bool, true, false, not, ◌&&◌,
  ◌||◌, Option, none, some, List, [], ◌∷◌, ◌++◌, map,
}
use emm_go_script.Common.Sorting.{sort_by}
use emm_go_script.Config.{Protocol, ExecutionMode, direct, browser, Job}

pub record Agent : Type 0 where
  pub id : String
  pub capacity : Int64
  pub direct_capacity : Int64
  pub browser_capacity : Int64
  pub direct_protocols : List Protocol

pub data PartitionError : Type 0 where
  invalid_agent agent_required : PartitionError
  capacity_below direct_capacity_below browser_capacity_below : Int64 → ℕ → PartitionError
  missing_binding unsupported_mode : Int64 → PartitionError
  duplicate_asset duplicate_account : PartitionError
  unsatisfiable : ExecutionMode → PartitionError

pub record Totals : Type 0 where
  pub total : Int64
  pub direct_total : Int64
  pub browser_total : Int64

-- A direct capacity of 0 stands for the agent's whole capacity.
pub normal : Agent → Agent
normal a = if a.direct_capacity == 0 then record a { direct_capacity = a.capacity } else a

pub is_invalid : Agent → List String → Bool
is_invalid a seen =
    a.id == ""
    || mem a.id seen
    || is_neg a.capacity
    || is_neg a.direct_capacity
    || is_neg a.browser_capacity

pub add_totals : Totals → Agent → Totals
add_totals t a = record {
  total = add_int t.total a.capacity;
  direct_total = add_int t.direct_total a.direct_capacity;
  browser_total = add_int t.browser_total a.browser_capacity;
}

pub normalize : List Agent → List String → Totals → Result PartitionError (List Agent × Totals)
normalize [] seen t = ok ([], t)
normalize (a ∷ rest) seen t = do
  guard (not (is_invalid a seen)) invalid_agent
  (tail, t') ← normalize rest (a.id ∷ seen) (add_totals t (normal a))
  ok (normal a ∷ tail, t')

-- The switch on the mode, with the jobs behind this one filed.
unfoldable pub file_job : Job → List Job × List Job → List Job × List Job
file_job j (ds, bs) = if j.mode == direct then (j ∷ ds, bs) else (ds, j ∷ bs)

-- The direct and the browser jobs, each in the order given.
unfoldable pub classify :
    List Job → List String → List String → Result PartitionError (List Job × List Job)
classify [] seen_assets seen_accounts = ok ([], [])
classify (j ∷ js) seen_assets seen_accounts = do
  guard (not (j.asset_id == "" || j.account_id == "")) (missing_binding j.id)
  guard (not (mem j.asset_id seen_assets)) duplicate_asset
  guard (not (mem j.account_id seen_accounts)) duplicate_account
  guard (j.mode == direct || j.mode == browser) (unsupported_mode j.id)
  rest ← classify js (j.asset_id ∷ seen_assets) (j.account_id ∷ seen_accounts)
  ok (file_job j rest)

pub supports_direct_protocol : List Protocol → Protocol → Bool
supports_direct_protocol [] p = false
supports_direct_protocol (q ∷ qs) p = q == p || supports_direct_protocol qs p

pub supporting_agent_count : List Agent → Protocol → ℕ
supporting_agent_count [] p = 0
supporting_agent_count (a ∷ rest) p =
    (if lt_int 0 a.direct_capacity && supports_direct_protocol a.direct_protocols p then 1 else 0)
    + supporting_agent_count rest p

pub record Slot : Type 0 where
  pub agent : Agent
  pub total_used : ℕ
  pub direct_used : ℕ
  pub browser_used : ℕ
  pub jobs : List Job

pub empty_slot : Agent → Slot
empty_slot a = record { agent = a; total_used = 0; direct_used = 0; browser_used = 0; jobs = [] }

-- The four `continue` tests of the inner loop.
pub can_take : Bool → Protocol → Slot → Bool
can_take for_browser p s =
    ltb s.total_used s.agent.capacity
    && (if for_browser
        then ltb s.browser_used s.agent.browser_capacity
        else ltb s.direct_used s.agent.direct_capacity
          && supports_direct_protocol s.agent.direct_protocols p)

pub fits_at : Bool → Protocol → List Slot → ℕ → Bool
fits_at for_browser p [] i = false
fits_at for_browser p (s ∷ ss) zero = can_take for_browser p s
fits_at for_browser p (s ∷ ss) (suc i) = fits_at for_browser p ss i

-- The inner loop, with `rounds` rounds left: the agents in a circle from the cursor on.
pub find_slot : Bool → Protocol → List Slot → ℕ → ℕ → ℕ → Option ℕ
find_slot for_browser p slots cursor checked zero = none
find_slot for_browser p slots cursor checked (suc rounds) =
    let index = (cursor + checked) % length slots in
    let rest = find_slot for_browser p slots cursor (checked + 1) rounds in
    if fits_at for_browser p slots index then some index else rest

pub take_job : Bool → Job → Slot → Slot
take_job for_browser j s = record s {
  total_used = s.total_used + 1;
  direct_used = if for_browser then s.direct_used else s.direct_used + 1;
  browser_used = if for_browser then s.browser_used + 1 else s.browser_used;
  jobs = s.jobs ++ j ∷ [];
}

pub put_job : Bool → Job → List Slot → ℕ → List Slot
put_job for_browser j [] i = []
put_job for_browser j (s ∷ ss) zero = take_job for_browser j s ∷ ss
put_job for_browser j (s ∷ ss) (suc i) = s ∷ put_job for_browser j ss i

pub assign : Bool → List Job → ℕ → List Slot → Result PartitionError (List Slot)
assign for_browser [] cursor slots = ok slots
assign for_browser (j ∷ js) cursor slots =
    elim (find_slot for_browser j.protocol slots cursor 0 (length slots)) [
      | none ↦ err (unsatisfiable (if for_browser then browser else direct))
      | some i ↦ assign for_browser js ((i + 1) % length slots) (put_job for_browser j slots i)
    ]

pub by_support : List Agent → Job → Job → Bool
by_support agents i j =
    ltb (supporting_agent_count agents i.protocol) (supporting_agent_count agents j.protocol)

-- The entries of the result map, in the order of the agents.
unfoldable pub partition : List Job → List Agent → Result PartitionError (List (String × List Job))
unfolding normalize is_invalid normal add_totals classify file_job mem assign find_slot fits_at
    can_take put_job take_job empty_slot by_support supporting_agent_count supports_direct_protocol
    sort_by
partition jobs agents = do
  (normalized, t) ← normalize agents [] (record { total = 0; direct_total = 0; browser_total = 0 })
  guard (not (lt_int t.total (length jobs))) (capacity_below t.total (length jobs))
  (ds, bs) ← classify jobs [] []
  guard (not (lt_int t.direct_total (length ds))) (direct_capacity_below t.direct_total (length ds))
  guard (not (lt_int t.browser_total (length bs)))
      (browser_capacity_below t.browser_total (length bs))
  let sorted = sort_by (by_support normalized) ds
  guard (not (length normalized == 0 && not (length jobs == 0))) agent_required
  slots ← assign false sorted 0 (map empty_slot normalized)
  slots' ← assign true bs 0 slots
  ok (map (λ s. (s.agent.id, s.jobs)) slots')
