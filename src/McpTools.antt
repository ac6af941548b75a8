-- ===== src/McpTools.antt =====
-- services/mcp_tools: the tools that the agent and the Gateway call.
pub mod TokenStore
pub mod FaultRegistry
pub mod Remediation
pub mod Server
pub mod Adapters
pub mod Propose
pub mod KbIndex
pub mod Notify
