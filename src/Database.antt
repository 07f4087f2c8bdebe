-- ===== src/Database.antt =====
-- internal/database: the runner of migrations. The connection pool is the driver's.
pub mod Migrations
