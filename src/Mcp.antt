-- ===== src/Mcp.antt =====
-- The router as an MCP client (router/src/mcp/client).
pub mod Prefix
pub mod Sanitize
pub mod ToolLoop
mod Tests
