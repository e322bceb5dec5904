-- ===== src/Profiles.antt =====
-- src/features/projects/project-profile.ts, default-project-profiles.ts and active-project-profile.ts: what
-- a profile may be, which metadata a document may have under it, and which readiness may follow which.
pub mod Texts
pub mod Data
pub mod Defining
pub mod Metadata
pub mod Readiness
pub mod Defaults
pub mod Trimming
pub mod Normal
pub mod Accepted
pub mod Values
pub mod Limits
pub mod Resubmission
pub mod Transitions
pub mod History
pub mod Progress
pub mod Approval
pub mod Tests
