-- ===== src/Repository.antt =====
-- internal/repository/repository.go over the tables of migrations/schema.sql.
-- The database itself is no code of the repository: a statement is modelled by what its SQL text
-- and the keys of its table say, and `outage` tells which statements fail for any other reason, so
-- what holds for every `outage` holds however the database behaves. A call that touches one table
-- is one statement. Rows stand in the order in which they were inserted; ids are equal as numbers.
mod Tables
mod Tasks
mod Agents
mod Turns
mod Snapshots
mod Sessions
mod Memories
mod Listings
pub mod Laws
unfoldable pub use Tables.*
unfoldable pub use Tasks.*
unfoldable pub use Agents.*
unfoldable pub use Turns.*
unfoldable pub use Snapshots.*
unfoldable pub use Sessions.*
unfoldable pub use Memories.*
unfoldable pub use Listings.*
