-- ===== src/Sqlite/Slot.antt =====
-- `struct sqlite_conn` of packages/dart_db_connector/native/c/src/sqlite_pool_internal.h; the free
-- list, the submit functions, the polling and the synchronous path of sqlite_pool.c; and the
-- snapshot of sqlite_pool_worker_main in sqlite_pool_worker.c. `none` is NULL; the caller gives at
-- least as many statements as it counts.
use dart_db_connector.Base.{
  ℕ, refl, ℤ, pos, pos_part, is_positive, Bool, true, false, ◌||◌, Option, none, some, List, [],
  ◌∷◌, take, if◌then◌else◌,
}
use dart_db_connector.Heap.{Heap, Text, free, dup_string}
use dart_db_connector.Clock.{Timespec}
use dart_db_connector.Sql.{sqlite_join_stmts}
use dart_db_connector.FreeList.{Lendable, Pool, Wake, Acquired, acquire, release}
use dart_db_connector.Sqlite.Results.{SqliteResult}
use dart_db_connector.Sqlite.Rows.{SqliteError}
use dart_db_connector.Sqlite.Execute.{SqliteStatus, Prepared, SqliteRan, sqlite_pool_execute_query}

pub record SqlitePayload : Type 0 where
  pub is_batch : Bool
  pub is_multi_read : Bool
  pub sql : Option Text
  pub port_id : ℤ
  pub timeout_ms : ℤ

-- `last_result` is the chain of results, in the order of their `next` links; a sqlite3 handle is
-- named by the connection's index.
pub record SqliteConn : Type 0 where
  pub db : Option ℕ
  pub index : ℕ
  pub in_use : Bool
  pub slot_filled : Bool
  pub payload : SqlitePayload
  pub last_result : List SqliteResult
  pub last_error : SqliteError
  pub shutdown_requested : Bool

instance abbrev pub sqlite_lendable : Lendable SqliteConn
sqlite_lendable = record {
  in_use = λ c. c.in_use;
  set_in_use = λ b c. record c { in_use = b };
  in_use-set = λ b c. refl;
}

unfoldable pub sqlite_pool_acquire :
    Option (Pool SqliteConn) → ℤ → Timespec → List (Wake SqliteConn) → Option (Acquired SqliteConn)
sqlite_pool_acquire none timeout_ms now wakes = none
sqlite_pool_acquire (some p) timeout_ms now wakes = some (acquire p timeout_ms now wakes)

unfoldable pub sqlite_pool_release : Option (Pool SqliteConn) → Option ℕ → Option (Pool SqliteConn)
sqlite_pool_release none conn = none
sqlite_pool_release (some p) none = some p
sqlite_pool_release (some p) (some i) = some (release p i)

abbrev pub sqlite_empty : SqlitePayload
sqlite_empty = record {
  is_batch = false;
  is_multi_read = false;
  sql = none;
  port_id = pos 0;
  timeout_ms = pos 0;
}

unfoldable pub sqlite_pool_free_slot_payload : SqliteConn → Heap → SqliteConn × Heap
unfolding free
sqlite_pool_free_slot_payload c h = (record c { payload = sqlite_empty }, free c.payload.sql h)

-- The value returned (1 or 0), the connection and the heap afterwards.
pub record SqliteOutcome : Type 0 where
  pub accepted : Bool
  pub conn : Option SqliteConn
  pub heap : Heap

abbrev pub sqlite_refuse : Option SqliteConn → Heap → SqliteOutcome
sqlite_refuse c h = record { accepted = false; conn = c; heap = h }

-- From the text on, under the mutex; `flagged` is the payload with the flags of the call set.
unfoldable pub sqlite_commit :
    SqliteConn → SqlitePayload → Option Text → ℤ → ℤ → Heap → SqliteOutcome
unfolding free
sqlite_commit c flagged none port_id timeout_ms h = sqlite_refuse (some c) h
sqlite_commit c flagged (some sql) port_id timeout_ms h =
    if c.slot_filled || c.shutdown_requested
    then sqlite_refuse (some c) (free (some sql) h)
    else record {
      accepted = true;
      conn = some (record c {
        slot_filled = true;
        payload = record flagged { sql = some sql; port_id = port_id; timeout_ms = timeout_ms };
      });
      heap = h;
    }

unfoldable pub sqlite_pool_submit_query :
    Option SqliteConn → Option Text → ℤ → ℤ → Heap → SqliteOutcome
sqlite_pool_submit_query none sql port_id timeout_ms h = sqlite_refuse none h
sqlite_pool_submit_query (some c) none port_id timeout_ms h = sqlite_refuse (some c) h
sqlite_pool_submit_query (some c) (some sql) port_id timeout_ms h =
    let (copy, h') = dup_string (some sql) h in sqlite_commit c c.payload copy port_id timeout_ms h'

unfoldable pub submit_joined :
    Option SqliteConn → Option (List (Option Text)) → ℤ → Bool → Bool → ℤ → ℤ → Heap → SqliteOutcome
submit_joined none stmts count is_batch is_multi_read port_id timeout_ms h = sqlite_refuse none h
submit_joined (some c) none count is_batch is_multi_read port_id timeout_ms h =
    sqlite_refuse (some c) h
submit_joined (some c) (some stmts) count is_batch is_multi_read port_id timeout_ms h =
    if is_positive count
    then (let (joined, h') = sqlite_join_stmts (take (pos_part count) stmts) h in
        sqlite_commit c (record (c.payload) { is_batch = is_batch; is_multi_read = is_multi_read })
          joined port_id timeout_ms h')
    else sqlite_refuse (some c) h

unfoldable pub sqlite_pool_submit_batch :
    Option SqliteConn → Option (List (Option Text)) → ℤ → ℤ → ℤ → Heap → SqliteOutcome
sqlite_pool_submit_batch c stmts count port_id timeout_ms h =
    submit_joined c stmts count true false port_id timeout_ms h

unfoldable pub sqlite_pool_submit_multi_read :
    Option SqliteConn → Option (List (Option Text)) → ℤ → ℤ → ℤ → Heap → SqliteOutcome
sqlite_pool_submit_multi_read c reads count port_id timeout_ms h =
    submit_joined c reads count false true port_id timeout_ms h

-- A call of `execute_multi_read`, `execute_batch` or `sqlite_pool_execute_query` by the worker.
pub data SqliteJob : Type 0 where
  read_joined run_joined run_single : Option Text → SqliteJob

unfoldable pub sqlite_dispatch : SqlitePayload → SqliteJob
sqlite_dispatch p =
    if p.is_multi_read
    then read_joined p.sql
    else if p.is_batch
    then run_joined p.sql
    else run_single p.sql

-- The result handed over and the connection afterwards.
unfoldable pub native_sqlite_poll_result :
    Option SqliteConn → Option SqliteResult × Option SqliteConn
native_sqlite_poll_result none = (none, none)
native_sqlite_poll_result (some c) = elim c.last_result [
  | [] ↦ (none, some (record c { last_result = [] }))
  | r ∷ rs ↦ (some r, some (record c { last_result = rs }))
]

abbrev pub no_error : SqliteError
no_error = record { message = []; code = 0 }

-- `last_error` and `last_error_code` after an execution that found them reset.
abbrev pub error_after : Option SqliteError → SqliteError
error_after none = no_error
error_after (some e) = e

-- What an execution leaves of the connection.
abbrev pub sqlite_keep : SqliteRan → SqliteConn → SqliteConn
sqlite_keep o c = record c { last_result = o.last_result; last_error = error_after o.error }

-- A call of sqlite_conn_exec_sync: refused, or the status of an execution.
pub data Synced : Type 0 where
  refused : Synced
  executed : SqliteStatus → Synced

-- `none` is a crash of materialize_stmt. `sql` comes as the answer of sqlite3_prepare_v2 to it, and
-- as `none` where it is NULL.
unfoldable pub sqlite_conn_exec_sync :
    Option SqliteConn → Option Prepared → Heap → Option (Synced × Option SqliteConn × Heap)
sqlite_conn_exec_sync none sql h = some (refused, none, h)
sqlite_conn_exec_sync (some c) none h = some (refused, some c, h)
sqlite_conn_exec_sync (some c) (some sql) h =
    if c.slot_filled || c.shutdown_requested
    then some (refused, some c, h)
    else elim (sqlite_pool_execute_query c.last_result sql h) [
      | none ↦ none
      | some o ↦ some (executed o.status, some (sqlite_keep o c), o.heap)
    ]

unfoldable pub native_sqlite_last_error : Option SqliteConn → Text
native_sqlite_last_error none = []
native_sqlite_last_error (some c) = c.last_error.message

unfoldable pub native_sqlite_last_error_code : Option SqliteConn → ℕ
native_sqlite_last_error_code none = 0
native_sqlite_last_error_code (some c) = c.last_error.code
