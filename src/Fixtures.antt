-- ===== src/Fixtures.antt =====
-- Seed and Reset (internal/modules/stressadmin/service.go): the fixture that the one adds, and what the
-- other removes.
pub mod Seeding
pub mod SeedRequests
pub mod Patterns
pub mod Resetting
pub mod ResetRequests
