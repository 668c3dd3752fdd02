-- ===== src/Sqlite.antt =====
-- The SQLite driver: packages/dart_db_connector/native/c/src/native_sqlite.c and
-- sqlite_pool_internal.h.
pub mod Results
pub mod Rows
pub mod Materialize
pub mod Execute
pub mod Slot
pub mod Worker
pub mod Lifecycle
