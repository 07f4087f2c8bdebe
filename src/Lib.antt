-- ===== src/Lib.antt =====
-- catgirl runs agents on language models: users write to bots, an orchestrator for each session turns
-- messages into tasks, tasks wait in one priority queue, and a pool of worker agents works on them.
--
-- The files follow the program.
--   Models: internal/models. Ids, times and JSON texts are numbers and strings; 0 is the nil uuid.
--   Repository: internal/repository/repository.go over migrations/schema.sql. The database is a
--     record of tables. A statement checks primary, unique and foreign keys, and may fail whenever
--     `outage` says so, which every theorem is about unless it says that the database answers. What a
--     JSONB column makes of a text is `as_jsonb`, for the turns, the history and the results and
--     constraints of tasks; the other JSONB columns hold their texts as they are. Lengths of VARCHAR
--     columns are not modelled.
--   Task: internal/services/task/task_queue.go. Score has the scores, PriorityQueue the queue,
--     GlobalQueue the two channels and the loop that serves them, Service the service on top.
--   Workers: internal/services/agent/agent_pool.go. Agent has one worker agent, Pool the pool and its
--     rows, Inputs the input queue, Billing the usage records.
--   Config: internal/config/config.go, the part that is kept in the database.
--   Llm: internal/services/llm, the messages and the choice of a model.
--   Runtime: internal/runtime. Context has what worker_context.go and orchestrator_context.go share,
--     WorkerContext and OrchestratorContext what they do not; ContextBuilder and ToolLoader are the
--     files of these names. Sessions is the service of session.go, Orchestrator an iteration of its
--     loop, Memory its long-term memory. Of runtime.go, Callbacks has the registry of waiting agents,
--     ParentDepth the depth of a task, and Coordinator the workers: Tools what an agent can call, Loop
--     the loop of an agent, Execute a task from the queue to its end.
--   Telegram: internal/services/telegram/telegram.go. Database: internal/database/migrations.go.
--   Auth: internal/services/auth/auth.go and the middleware of internal/transport/http/server.go.
--   Containers: internal/services/container/container.go. Docker: the container manager of
--     internal/services/docker/docker.go. Snapshots: internal/services/snapshot/snapshot.go.
--   SortSlice: the contract of `sort.Slice`, which the queue takes as a parameter, and an insertion
--     sort that meets it. Base: lists, errors, counters and integers for all of them.
--
-- State is passed explicitly: an operation of a component takes the component's record and returns a
-- result and the new record, so that a call that fails halfway shows what it has already done. A
-- method that holds a lock from start to end is one step. Where the source ranges over a map, the
-- order is an argument. The clock, fresh uuids, random numbers and names are arguments. Where a loop
-- calls the model, Docker or new uuids, they are fields of a record over a state of the outer world.
--
-- Loops are over lists. Only the count of a task's parents runs on fuel, which is the number of rows
-- of the table and is enough. The loop of an agent has no end of its own: a run of it is over the
-- sequence of the inputs that arrive before each iteration.
--
-- Scores and fractions, which are float64, are integers in a unit that makes the constants exact;
-- rounding is not modelled. Integers of the configuration are integers, without overflow; the services
-- take the limits as natural numbers, so what they do with a negative one is not modelled.
-- Encoding and decoding of tool calls is the record `Codec`, with what encoding/json promises.
--
-- Not modelled: start, stop and the tickers of the coordinator, the HTTP handlers and clients, commands
-- in containers and webhooks, which are mostly calls of other systems; UpdateSessionState, usage
-- summaries and the configuration tables. Logging and the web client are left out as well.
pub mod Base
pub mod Models
pub mod Repository
pub mod SortSlice
pub mod Task
pub mod Config
pub mod Workers
pub mod Llm
pub mod Auth
pub mod Database
pub mod Containers
pub mod Docker
pub mod Runtime
pub mod Snapshots
pub mod Telegram
pub mod Tests
