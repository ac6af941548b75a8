-- ===== src/Simulator.antt =====
-- services/simulator: the asset state machine, its control API and the generic REST surface.
pub mod Engine
pub mod Control
pub mod Generic
pub mod Redfish
