-- ===== src/Db.antt =====
-- The database of the service and the way its statements run: the tables of
-- internal/storage (db/migrations, db/test_schema.sql), statements and transactions.
pub mod Tables
pub mod Exec
pub mod Schema
pub mod Triple
pub mod Calm
