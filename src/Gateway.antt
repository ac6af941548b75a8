-- ===== src/Gateway.antt =====
-- services/gateway: the state, the fault lifecycle, and the execution of approved remediations.
pub mod Sse
pub mod Store
pub mod RedisStore
pub mod Executor
pub mod Runbook
pub mod Faults
pub mod Decision
pub mod Presenter
pub mod Terminal
