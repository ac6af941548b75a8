-- ===== src/Tests.antt =====
-- Concrete runs of the services.
mod Data
mod McpTools
mod Packs
mod Gateway
mod Orchestrator
mod Redis
mod Disk
mod Terminal
mod Redfish
