-- ===== src/Config/Expand.antt =====
-- `Config.Expand`: from the protocol and mode counts to the numbered list of jobs.
pub mod Numbering
pub mod Tally
pub mod Total
use emm_go_script.Common.{
  if◌then◌else◌, length, Result, ok, ◌>>=◌, ◌>>◌, guard, get_or, ◌==◌, nat_eq, string_eq, mem,
  lookup, Int64, is_neg, add_int, lt_int, ℕ, zero, suc, ◌+◌, not, ◌||◌, none, some, List, [], ◌∷◌,
  ◌++◌,
}
use emm_go_script.Config.{
  Protocol, ExecutionMode, ssh, mysql, direct, browser, protocol_order, ModeCounts, Config, Job,
}

pub data ExpandError : Type 0 where
  total_not_positive : ExpandError
  negative_count : Protocol → ExpandError
  unknown_protocol : Protocol → ExpandError
  total_mismatch : Int64 → Int64 → ExpandError
  negative_mode_count : Protocol → ExpandError
  mode_total_mismatch : Int64 → Protocol → Int64 → ExpandError

-- The first loop, with `sum` as its accumulator.
pub check_counts : List (Protocol × Int64) → Int64 → Result ExpandError Int64
check_counts [] sum = ok sum
check_counts ((p, count) ∷ rest) sum = do
  guard (not (is_neg count)) (negative_count p)
  guard (mem p protocol_order) (unknown_protocol p)
  check_counts rest (add_int sum count)

-- A missing key reads as 0.
unfoldable pub count_of : Config → Protocol → Int64
count_of c p = get_or (lookup p c.protocols) 0

pub explicit_modes : Protocol → Int64 → ModeCounts → Result ExpandError ModeCounts
explicit_modes p count m = do
  guard (not (is_neg m.direct_count || is_neg m.browser_count)) (negative_mode_count p)
  guard (add_int m.direct_count m.browser_count == count)
      (mode_total_mismatch (add_int m.direct_count m.browser_count) p count)
  ok m

unfoldable pub default_modes : Protocol → Int64 → ModeCounts
default_modes p count =
    if p == ssh || p == mysql
    then record { direct_count = count; browser_count = 0 }
    else record { direct_count = 0; browser_count = count }

pub modes_of : Config → Protocol → Int64 → Result ExpandError ModeCounts
unfolding explicit_modes default_modes
modes_of c p count = elim (lookup p c.execution_modes) [
  | some m ↦ explicit_modes p count m
  | none ↦ ok (default_modes p count)
]

pub new_job : ℕ → Protocol → ExecutionMode → Job
new_job n p m = record { id = n + 1; protocol = p; mode = m; asset_id = ""; account_id = "" }

-- `for i := 0; i < n; i++ { jobs = append(jobs, …) }`
pub add_jobs : ℕ → Protocol → ExecutionMode → List Job → List Job
add_jobs zero p m jobs = jobs
add_jobs (suc n) p m jobs = add_jobs n p m (jobs ++ new_job (length jobs) p m ∷ [])

pub add_protocol : Config → Protocol → List Job → Result ExpandError (List Job)
unfolding modes_of
add_protocol c p jobs = if count_of c p == 0 then ok jobs else (do
  m ← modes_of c p (count_of c p)
  ok (add_jobs m.direct_count p direct (add_jobs m.browser_count p browser jobs)))

pub add_protocols : Config → List Protocol → List Job → Result ExpandError (List Job)
add_protocols c [] jobs = ok jobs
add_protocols c (p ∷ ps) jobs = do jobs' ← add_protocol c p jobs; add_protocols c ps jobs'

unfoldable pub expand : Config → Result ExpandError (List Job)
unfolding check_counts add_protocol add_protocols count_of mem lookup new_job add_jobs
expand c = do
  guard (lt_int 0 c.total) total_not_positive
  sum ← check_counts c.protocols 0
  guard (sum == c.total) (total_mismatch sum c.total)
  add_protocols c protocol_order []
