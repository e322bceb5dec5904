-- ===== src/Awareness.antt =====
-- src/features/collaboration/server/awareness-policy.ts: which awareness frames of a connection are let
-- through, and what of them is shown to the others.
pub mod Values
pub mod Shape
pub mod Decoding
pub mod State
pub mod Frames
pub mod Sanitizing
pub mod Leaving
pub mod Ownership
pub mod Spoofing
pub mod Publishing
pub mod Loops
pub mod Verified
pub mod Tests
