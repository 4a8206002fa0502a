-- ===== src/Mcp.antt =====
-- The MCP server (src/nilscript/mcp): the approval gate of its tools, and whose backend a connection
-- is bound to.
pub mod Gate
pub mod Tenant
mod Examples
