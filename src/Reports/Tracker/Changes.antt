-- ===== src/Reports/Tracker/Changes.antt =====
-- The changes that the calls of a tracker make to its counts (report.go).
use emm_go_script.Common.{
  Bool-cases, All, string_eq, nat_eq, ◌==◌, String, inl, inr, [], ◌∷◌, arith,
}
use emm_go_script.Reports.Counts.{Counts, no_counts, add_counts}
use emm_go_script.Reports.Counts.Sums.{CountsMap, Agree-eq, IsBounded, Shifts, update_at}
use emm_go_script.Reports.Tracker.{
  plan_one, use_one, repeat_one, start_one, fail_start, fail_runtime, maintain_one, retry_one,
  succeed_retry, exhaust_retry,
}

-- A change that a call makes: it may be made before or after others are added, and what it leaves are patterns.
pub record IsChange (f : Counts → Counts) : Type 0 where
  pub shifts : Shifts f
  pub bounds : (c : Counts) → IsBounded c → IsBounded (f c)

abbrev pub IsBoundedMap : CountsMap String → Type 0
IsBoundedMap m = All (λ e. IsBounded e.1) m

pub plan_one-IsChange : IsChange plan_one
unfolding add_counts
plan_one-IsChange = record { shifts = λ a b. Agree-eq (omega arith); bounds = λ c h. omega arith }

pub use_one-IsChange : IsChange use_one
unfolding add_counts
use_one-IsChange = record { shifts = λ a b. Agree-eq (omega arith); bounds = λ c h. omega arith }

pub repeat_one-IsChange : IsChange repeat_one
unfolding add_counts
repeat_one-IsChange = record { shifts = λ a b. Agree-eq (omega arith); bounds = λ c h. omega arith }

pub start_one-IsChange : IsChange start_one
unfolding add_counts
start_one-IsChange = record { shifts = λ a b. Agree-eq (omega arith); bounds = λ c h. omega arith }

pub fail_start-IsChange : IsChange fail_start
unfolding add_counts
fail_start-IsChange = record { shifts = λ a b. Agree-eq (omega arith); bounds = λ c h. omega arith }

pub fail_runtime-IsChange : IsChange fail_runtime
unfolding add_counts
fail_runtime-IsChange = record {
  shifts = λ a b. Agree-eq (omega arith);
  bounds = λ c h. omega arith;
}

-- The calls that only count: `Maintained` and the three on retries.
pub data IsCounted : (Counts → Counts) → Type 0 where
  maintained : IsCounted maintain_one
  retried : IsCounted retry_one
  retry_succeeded : IsCounted succeed_retry
  retries_exhausted : IsCounted exhaust_retry

pub IsCounted-IsChange : {f : Counts → Counts} → IsCounted f → IsChange f
unfolding add_counts
IsCounted-IsChange maintained = record {
  shifts = λ a b. Agree-eq (omega arith);
  bounds = λ c h. omega arith;
}
IsCounted-IsChange retried = record {
  shifts = λ a b. Agree-eq (omega arith);
  bounds = λ c h. omega arith;
}
IsCounted-IsChange retry_succeeded = record {
  shifts = λ a b. Agree-eq (omega arith);
  bounds = λ c h. omega arith;
}
IsCounted-IsChange retries_exhausted = record {
  shifts = λ a b. Agree-eq (omega arith);
  bounds = λ c h. omega arith;
}

pub no_counts-IsBounded : IsBounded no_counts
no_counts-IsBounded = omega arith

pub update_at-IsBounded :
    {f : Counts → Counts} (k : String) (m : CountsMap String)
    → IsChange f
    → IsBoundedMap m
    → IsBoundedMap (update_at k f m)
unfolding update_at
update_at-IsBounded k [] g h = (g.bounds no_counts no_counts-IsBounded, tt)
update_at-IsBounded k ((j, c) ∷ m) g h = elim (Bool-cases (j == k)) [
  | inl e ↦ rw e (g.bounds c h.0, h.1)
  | inr e ↦ rw e (h.0, update_at-IsBounded k m g h.1)
]
