-- ===== src/Models.antt =====
-- internal/models/models.go and models_extra.go: the records that the services share.
-- A uuid is a number, `uuid.Nil` is 0; a `time.Time` is the number of nanoseconds since an epoch,
-- the zero time is 0; a raw JSON text is a `String`, nil is the empty one (`none` in a turn). A nullable field is an
-- `Option`. Counts, tokens and turn numbers are natural numbers. The types of the source that are
-- strings with named constants are data types where the code writes no other value, and strings
-- (`AgentType`, `membership`) where a caller may pass any text.
mod Tasks
mod Agents
mod Sessions
mod Snapshots
pub use Tasks.*
pub use Agents.*
pub use Sessions.*
pub use Snapshots.*
