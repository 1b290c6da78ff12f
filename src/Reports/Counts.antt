-- ===== src/Reports/Counts.antt =====
-- `Counts` and its operations (report.go). Each field is a Go `int`, a 64-bit pattern (Common/Word.antt).
pub mod Sums
use emm_go_script.Common.{
  string_eq, nat_eq, ◌==◌, Int64, is_neg, add_int, sub_int, lt_int, Bool, not, ◌&&◌,
}

pub record Counts : Type 0 where
  pub planned : Int64
  pub used : Int64
  pub duplicates : Int64
  pub unused : Int64
  pub started : Int64
  pub start_failures : Int64
  pub runtime_failures : Int64
  pub maintained : Int64
  pub connect_retry_attempts : Int64
  pub connect_retry_successes : Int64
  pub connect_retry_exhausted : Int64

-- `Counts{}`
abbrev pub no_counts : Counts
no_counts = record {
  planned = 0;
  used = 0;
  duplicates = 0;
  unused = 0;
  started = 0;
  start_failures = 0;
  runtime_failures = 0;
  maintained = 0;
  connect_retry_attempts = 0;
  connect_retry_successes = 0;
  connect_retry_exhausted = 0;
}

-- `addCounts`, with the target's value first.
unfoldable pub add_counts : Counts → Counts → Counts
add_counts target value = record {
  planned = add_int target.planned value.planned;
  used = add_int target.used value.used;
  duplicates = add_int target.duplicates value.duplicates;
  unused = add_int target.unused value.unused;
  started = add_int target.started value.started;
  start_failures = add_int target.start_failures value.start_failures;
  runtime_failures = add_int target.runtime_failures value.runtime_failures;
  maintained = add_int target.maintained value.maintained;
  connect_retry_attempts = add_int target.connect_retry_attempts value.connect_retry_attempts;
  connect_retry_successes = add_int target.connect_retry_successes value.connect_retry_successes;
  connect_retry_exhausted = add_int target.connect_retry_exhausted value.connect_retry_exhausted;
}

abbrev is_nonneg : Int64 → Bool
is_nonneg a = not (is_neg a)

abbrev le_int : Int64 → Int64 → Bool
le_int a b = not (lt_int b a)

-- `validCounts`.
unfoldable pub valid_counts : Counts → Bool
valid_counts c =
    (is_nonneg c.planned && is_nonneg c.used && le_int c.used c.planned)
    && (is_nonneg c.unused && is_nonneg c.duplicates && is_nonneg c.started)
    && (is_nonneg c.start_failures && add_int c.started c.start_failures == c.used)
    && (is_nonneg c.runtime_failures && le_int c.runtime_failures c.started)
    && (is_nonneg c.maintained && c.maintained == sub_int c.started c.runtime_failures)
    && (is_nonneg c.connect_retry_attempts
        && is_nonneg c.connect_retry_successes
        && is_nonneg c.connect_retry_exhausted)
    && (le_int c.connect_retry_successes c.connect_retry_attempts
        && le_int c.connect_retry_exhausted c.connect_retry_attempts)

-- `!=` on two counts.
unfoldable pub same_counts : Counts → Counts → Bool
same_counts a b =
    (a.planned == b.planned
      && a.used == b.used
      && a.duplicates == b.duplicates
      && a.unused == b.unused)
    && (a.started == b.started
        && a.start_failures == b.start_failures
        && a.runtime_failures == b.runtime_failures)
    && (a.maintained == b.maintained && a.connect_retry_attempts == b.connect_retry_attempts)
    && (a.connect_retry_successes == b.connect_retry_successes
        && a.connect_retry_exhausted == b.connect_retry_exhausted)

-- What `Snapshot` puts into the counts that it reports.
unfoldable pub derived : Counts → Counts
derived c = record c {
  maintained = sub_int c.started c.runtime_failures;
  unused = sub_int c.planned c.used;
}

-- The demand of `validateReportDimensions` on the totals of a run that has succeeded.
unfoldable pub all_succeeded : Counts → Bool
all_succeeded c =
    (c.used == c.planned && c.duplicates == 0 && c.unused == 0 && c.start_failures == 0)
    && (c.runtime_failures == 0 && c.started == c.planned && c.maintained == c.started)
