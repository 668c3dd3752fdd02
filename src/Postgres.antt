-- ===== src/Postgres.antt =====
-- The PostgreSQL driver: packages/dart_db_connector/native/c/src/native_pool.c and
-- native_pool_worker.c.
pub mod Chain
pub mod Conn
pub mod Submit
pub mod SubmitParams
pub mod Ledger
pub mod ClearSlot
pub mod ParamsLedger
pub mod Dispatch
pub mod Drain
pub mod Execute
pub mod Pool
pub mod Lifecycle
pub mod Worker
