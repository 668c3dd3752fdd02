-- ===== src/Mongo.antt =====
-- The MongoDB driver of packages/dart_db_connector/native/c/src/: mongo_pool.c, mongo_pool_worker.c
-- and native_mongo.c.
pub mod Results
pub mod Slot
pub mod Execute
pub mod Worker
pub mod Lifecycle
