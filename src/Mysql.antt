-- ===== src/Mysql.antt =====
-- The MySQL driver: packages/dart_db_connector/native/c/src/mysql_pool.c, mysql_pool_worker.c,
-- mysql_pool_internal.h and native_mysql.c.
pub mod Results
pub mod Slot
pub mod Execute
pub mod Worker
pub mod Lifecycle
