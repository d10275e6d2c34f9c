-- ===== src/Routes.antt =====
-- The routes of the coordinator, coordinator-agent/src/routes/coordinate.ts: which workers count as
-- valid, the handlers, and what they are sure to do.
pub mod Validation
pub mod Passing
pub mod Known
pub mod Workers
pub mod Registering
pub mod Registered
pub mod Rounds
pub mod Proposals
pub mod Juries
pub mod Polls
pub mod Voting
pub mod Tests
