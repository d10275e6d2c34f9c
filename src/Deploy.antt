-- ===== src/Deploy.antt =====
-- The deployment of named agents, and what the API reads and writes of the contracts: deploy.ts, agents.ts and
-- workers.ts of protocol-api/src/routes, with contract/local-contract.ts.
pub mod Registry
pub mod Watch
pub mod Routes
pub mod Contract
pub mod Workers
pub mod Agents
mod Tests
