-- ===== src/Browser.antt =====
-- pam-loadtest/internal/browser.
pub mod Pool
