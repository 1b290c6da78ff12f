-- ===== src/Reports.antt =====
-- pam-loadtest/internal/runreport/report.go: the counts and the evidence of a run, the tracker that keeps them, and the merge of
-- the agents' reports.
pub mod Counts
pub mod Evidence
mod Samples
pub mod Tracker
pub mod Validation
pub mod Aggregate
