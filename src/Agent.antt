-- ===== src/Agent.antt =====
-- The worker agent, worker-agent/src: how it asks the model for a vote, does a task and stores the
-- result, its registration and its polling loop, and what it leaves in the shared memory.
pub mod Services
pub mod Voting
pub mod Work
pub mod Lifecycle
pub mod Writes
pub mod Ballots
pub mod Performed
pub mod Recorded
pub mod Polling
pub mod Counted
pub mod Tests
