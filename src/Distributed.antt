-- ===== src/Distributed.antt =====
-- pam-loadtest/internal/distributed: the agents of a distributed run. Partition.antt divides the jobs among them.
pub mod Partition
pub mod Request
pub mod Registry
