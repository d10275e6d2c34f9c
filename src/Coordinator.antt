-- ===== src/Coordinator.antt =====
-- The coordinator agent: coordinator-agent/src/monitor/memory-monitor.ts, with the contract calls of
-- coordinator-agent/src/contract/local-contract.ts and the name cache of shared/src/name-resolver.ts.
pub mod Memory
pub mod Names
pub mod Discovery
pub mod Dispatch
pub mod Contract
pub mod Registration
pub mod Waiting
pub mod Tally
pub mod Aggregation
pub mod Submissions
pub mod Marks
pub mod Rounds
pub mod Production
pub mod Monitor
pub mod World
pub mod Tests
