-- ===== src/Protocol.antt =====
-- pam-loadtest/internal/protocol.
pub mod Guacamole
