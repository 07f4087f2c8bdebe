-- ===== src/Workers.antt =====
-- agent_pool.go: the worker agents, their pool, and the services that they carry.
pub mod Agent
pub mod Inputs
pub mod Pool
pub mod Billing
