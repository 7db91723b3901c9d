-- ===== src/Server.antt =====
-- The MCP server's responses: mcp_server/, and the scans of read_models/ that feed its pages.
pub mod Values
pub mod Patterns
pub mod Prefixes
pub mod Redaction
pub mod Envelopes
pub mod Pages
pub mod Scan
pub mod Cursors
pub mod Listing
