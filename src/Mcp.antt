-- ===== src/Mcp.antt =====
-- The Ensue MCP server, ensue-mcp-server/src: the store of its sessions, what an operation on it
-- leaves, which stores can come about, and the handler of a request.
pub mod Sessions
pub mod Reachable
pub mod Sweeping
pub mod Surviving
pub mod Requests
pub mod Admission
pub mod Tests
