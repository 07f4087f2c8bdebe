-- ===== src/Runtime.antt =====
-- internal/runtime: the contexts of workers and orchestrators, the sessions.
pub mod Context
pub mod WorkerContext
pub mod OrchestratorContext
pub mod Sessions
pub mod Callbacks
pub mod ParentDepth
pub mod ToolLoader
pub mod Coordinator
pub mod Orchestrator
pub mod Memory
pub mod ContextBuilder
