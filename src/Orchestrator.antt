-- ===== src/Orchestrator.antt =====
-- services/orchestrator: which scenario runs next, and the fault it puts on the simulator.
pub mod Rotation
pub mod Highlight
pub mod Router
pub mod Queries
