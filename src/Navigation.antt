-- ===== src/Navigation.antt =====
-- src/features/collaboration/client/navigation-controller.ts: leaving a document whose updates are not
-- durable yet. A handler is a function of the controller and of what the page is at the moment; it gives
-- the next world and what it does to the page, in order.
pub mod State
pub mod Handlers
pub mod Events
pub mod Staying
pub mod Refusal
pub mod Fairness
pub mod Restoration
pub mod Ending
pub mod Tests
