-- ===== src/Examples.antt =====
-- Concrete runs of the code under packages/dart_db_connector/native/c/src/: the theorems applied at
-- small inputs, and tests.
pub mod Shared
pub mod Lists
pub mod Slots
pub mod Workers
pub mod Drivers
pub mod Sqlite
pub mod Mysql
pub mod Mongo
