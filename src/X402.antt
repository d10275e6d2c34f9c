-- ===== src/X402.antt =====
-- The paid interface of the coordinator, coordinator-agent/src/x402: a buyer posts a proposal, the
-- coordination runs, and its verdict is answered at once or fetched later. The store of the verdicts,
-- the two handlers, what a buyer can rely on, and tests.
pub mod Store
pub mod StoreLaws
pub mod Listing
pub mod Deliberate
pub mod Verdict
pub mod Requests
pub mod Agreement
pub mod Tests
