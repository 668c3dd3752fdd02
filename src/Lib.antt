-- ===== src/Lib.antt =====
-- The native core of dart_db_connector: connection pools for PostgreSQL, MySQL, SQLite and MongoDB
-- in C, which Dart isolates call over FFI. Each connection has a worker thread and a mailbox of one
-- slot. A client acquires a connection from the pool's free list, submits a request to its slot,
-- and gets a message on its Dart port when the worker has run it; it then polls the results and
-- releases the connection.
--
-- Files, with paths below packages/dart_db_connector/native/c/src/:
--   Heap, Handles      malloc and free as a ledger of blocks; sessions, mutexes, condition
--                      variables and threads as a log of what is opened and closed
--   Clock              deadline_from_ms of native_pool.c; compute_deadline, ms_until and
--                      next_select_tv of native_pool_worker.c
--   Sql                join_with_semicolons of native_pool_worker.c, join_stmts of mysql_pool.c and
--                      of sqlite_pool.c
--   FreeList           pool_acquire and the list part of pool_release of native_pool.c, over any
--                      type of connection that can be marked in use
--   Postgres.Chain     the result chain of native_pool_internal.h: native_pool_chain_append,
--                      native_pool_free_result_chain, and the dequeue of poll_result
--   Postgres.Conn      struct native_conn, native_pool_free_slot_payload
--   Postgres.Submit, Postgres.SubmitParams
--                      submit_locked and the four submit functions of native_pool.c; what they take
--                      from the heap is counted in Ledger, ParamsLedger and ClearSlot
--   Postgres.Dispatch  the snapshot of the slot and the choice of a path in native_pool_worker_main;
--                      the four requests as one operation
--   Postgres.Drain, Postgres.Execute
--                      flush_outgoing, execute_single, execute_single_params, execute_pipeline and
--                      execute_multi_read of native_pool_worker.c
--   Postgres.Pool, Postgres.Lifecycle
--                      pool_acquire, pool_release, poll_result, pool_cancel, init_conn,
--                      teardown_conn, pool_create and pool_destroy of native_pool.c
--   Postgres.Worker    native_pool_worker_main, interleaved with submissions and the shutdown
--   Mailbox            the loop over a slot that mysql_pool_worker_main, sqlite_pool_worker_main and
--                      mongo_pool_worker_main share, over an interface with the laws of the slot
--   Lifecycle          the steps of creating and destroying a pool that mysql_pool.c, sqlite_pool.c and
--                      mongo_pool.c share, over an interface of managed connections
--   Mysql.Results      struct native_mysql_result of mysql_pool_internal.h, the accessors and the row
--                      cache of native_mysql.c
--   Mysql.Slot         the slot, submit, release and poll functions of mysql_pool.c, and the choice of
--                      a path in mysql_pool_worker_main
--   Mysql.Execute      execute_single, execute_batch and execute_multi_read of mysql_pool_worker.c
--   Mysql.Worker, Mysql.Lifecycle
--                      the instances for MySQL, with the error of an abort and the cancel
--   Sqlite.Results     struct native_sqlite_result of sqlite_pool_internal.h and the accessors of
--                      native_sqlite.c
--   Sqlite.Rows, Sqlite.Materialize
--                      materialize_stmt of sqlite_pool_worker.c: the loop over the rows, and the
--                      result that is made of them; native_sqlite_clear_result
--   Sqlite.Execute     sqlite_pool_execute_query, execute_batch and execute_multi_read of
--                      sqlite_pool_worker.c
--   Sqlite.Slot        the slot, submit, release and poll functions and sqlite_conn_exec_sync of
--                      sqlite_pool.c
--   Sqlite.Worker, Sqlite.Lifecycle
--                      the instances for SQLite
--   Mongo.Results      struct native_mongo_result of mongo_pool_internal.h and native_mongo.c
--   Mongo.Slot         submit_op and the six submit functions, release and poll of mongo_pool.c
--   Mongo.Execute      execute_find, execute_write, execute_command and execute_insert_many of
--                      mongo_pool_worker.c
--   Mongo.Worker, Mongo.Lifecycle
--                      the instances for MongoDB, with its URI and its client pool
--   Examples           the theorems at concrete inputs
--
-- How the code is read. An int32_t or int64_t argument is an integer. The sums of one are written
-- out as the code has them: the count of a pipeline's results wraps around, and where the offsets
-- of a bulk insert overflow an int32_t, that is an outcome of its own. The times are natural
-- numbers and do not overflow, nor do the sizes of SQLite's arrays. The bytes of a number in memory
-- come the lowest first, as sqlite_pool_internal.h says of its results, which holds on little-
-- endian hosts. A C string is the list of its bytes, a counted array the list of its entries, of
-- which the caller gives at least as many as it counts. malloc's answers are a function of the
-- number of the request, so that a theorem holds wherever it fails. What libpq, libmysqlclient,
-- sqlite3, libmongoc, select(), pthreads and the clock answer is an argument: a loop over a socket
-- runs along a list of such answers, one for each round, and gives nothing where the list ends
-- while the loop still waits. A chain of PostgreSQL is walked with as much fuel as nodes were ever
-- made, which is enough, since links lead to younger nodes; a chain of the other drivers is the
-- list of its results. A multi-read of SQLite has a round for each character of its text and one
-- more, which is enough, since sqlite3 leaves less of a text than it was given. The code between
-- lock and unlock is one step.
--
-- Not modelled: native_db.c, which wraps single calls of libpq; the version numbers and the
-- initialisation of the Dart API; the messages on stderr; the Dart packages, in another language; the
-- vendored Dart SDK files; what the libraries themselves do on the wire or on disk; the memory model
-- below the mutexes and atomics.
pub mod Base
pub mod Heap
pub mod Mailbox
pub mod Lifecycle
pub mod Clock
pub mod Postgres
pub mod Mongo
pub mod Mysql
pub mod Sqlite
pub mod Sql
pub mod FreeList
pub mod Handles
pub mod Examples
