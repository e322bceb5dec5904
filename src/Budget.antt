-- ===== src/Budget.antt =====
-- src/features/security/request-budget.ts and src/db/sqlite-contention.ts: how many requests of a principal
-- pass in a window of time.
pub mod Storage
pub mod Contention
pub mod Consuming
pub mod Steps
pub mod Pruning
pub mod Quota
pub mod Admission
pub mod Limit
pub mod Counters
pub mod Tests
