-- ===== src/Consistency.antt =====
-- AssertConsistency (internal/modules/stressadmin/service.go) against the rules that it checks.
pub mod Rows
pub mod Duplicates
pub mod Report
pub mod Reached
