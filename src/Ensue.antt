-- ===== src/Ensue.antt =====
-- The shared memory: its key paths, shared/src/constants.ts, where the prefix helper `K` is the identity,
-- and its client, ensue-client/src/ensue-client.ts.
pub mod Keys
pub mod Client
pub mod Listing
pub mod Listed
pub mod Missing
pub mod Events
pub mod Tests
