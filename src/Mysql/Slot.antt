-- ===== src/Mysql/Slot.antt =====
-- `struct mysql_conn` of packages/dart_db_connector/native/c/src/mysql_pool_internal.h; the free
-- list, the submit functions and the polling of mysql_pool.c; and the snapshot of
-- mysql_pool_worker_main in mysql_pool_worker.c. `none` is NULL; the caller gives at least as many
-- statements as it counts.
pub mod Means
pub mod Release
use dart_db_connector.Base.{
  ℕ, refl, ℤ, pos, pos_part, is_positive, Bool, true, false, not, ◌||◌, Option, none, some, List,
  [], ◌∷◌, take, if◌then◌else◌,
}
use dart_db_connector.Heap.{Heap, Text, free, dup_string}
use dart_db_connector.Clock.{Timespec}
use dart_db_connector.Sql.{mysql_join_stmts}
use dart_db_connector.FreeList.{Lendable, Pool, Wake, Acquired, acquire, release}
use dart_db_connector.Mysql.Results.{Result}

pub record MysqlPayload : Type 0 where
  pub is_batch : Bool
  pub is_multi_read : Bool
  pub sql : Option Text
  pub port_id : ℤ
  pub timeout_ms : ℤ

-- `last_errno` and `last_error`.
pub record MysqlError : Type 0 where
  pub errno : ℕ
  pub message : Text

-- `mysql_clear_conn_error`
abbrev pub no_error : MysqlError
no_error = record { errno = 0; message = [] }

-- `last_result` is the chain of wrappers, in the order of their `next` links; a MYSQL handle is named
-- by the connection's index.
pub record MysqlConn : Type 0 where
  pub my : Option ℕ
  pub index : ℕ
  pub in_use : Bool
  pub slot_filled : Bool
  pub payload : MysqlPayload
  pub open payload use *
  pub last_result : List Result
  pub last_error : MysqlError
  pub shutdown_requested : Bool

instance abbrev pub mysql_lendable : Lendable MysqlConn
mysql_lendable = record {
  in_use = λ c. c.in_use;
  set_in_use = λ b c. record c { in_use = b };
  in_use-set = λ b c. refl;
}

unfoldable pub mysql_pool_acquire :
    Option (Pool MysqlConn) → ℤ → Timespec → List (Wake MysqlConn) → Option (Acquired MysqlConn)
mysql_pool_acquire none timeout_ms now wakes = none
mysql_pool_acquire (some p) timeout_ms now wakes = some (acquire p timeout_ms now wakes)

unfoldable pub mysql_pool_release : Option (Pool MysqlConn) → Option ℕ → Option (Pool MysqlConn)
mysql_pool_release none conn = none
mysql_pool_release (some p) none = some p
mysql_pool_release (some p) (some i) = some (release p i)

unfoldable pub mysql_pool_free_slot_payload : MysqlConn → Heap → MysqlConn × Heap
unfolding free
mysql_pool_free_slot_payload c h = (
  record c {
    payload = record {
      is_batch = false;
      is_multi_read = false;
      sql = none;
      port_id = pos 0;
      timeout_ms = pos 0;
    };
  },
  free c.sql h,
)

-- The value returned (1 or 0), the connection and the heap afterwards.
pub record MysqlOutcome : Type 0 where
  pub accepted : Bool
  pub conn : Option MysqlConn
  pub heap : Heap

abbrev pub mysql_refuse : Option MysqlConn → Heap → MysqlOutcome
mysql_refuse c h = record { accepted = false; conn = c; heap = h }

unfoldable pub mysql_pool_submit_query :
    Option MysqlConn → Option Text → ℤ → ℤ → Heap → MysqlOutcome
mysql_pool_submit_query none sql port_id timeout_ms h = mysql_refuse none h
mysql_pool_submit_query (some c) none port_id timeout_ms h = mysql_refuse (some c) h
mysql_pool_submit_query (some c) (some sql) port_id timeout_ms h =
    if c.slot_filled || c.shutdown_requested
    then mysql_refuse (some c) h
    else (let (copy, h') = dup_string (some sql) h in
        elim copy [
          | none ↦ mysql_refuse (some c) h'
          | some t ↦ record {
            accepted = true;
            conn = some (record c {
              slot_filled = true;
              payload = record (c.payload) {
                sql = some t;
                port_id = port_id;
                timeout_ms = timeout_ms;
              };
            });
            heap = h';
          }
        ])

-- From the joined text on; `flagged` is the payload with the flag of the call set.
unfoldable pub commit_joined : MysqlConn → MysqlPayload → Option Text → ℤ → ℤ → Heap → MysqlOutcome
unfolding free
commit_joined c flagged none port_id timeout_ms h = mysql_refuse (some c) h
commit_joined c flagged (some joined) port_id timeout_ms h =
    if c.slot_filled || c.shutdown_requested
    then mysql_refuse (some c) (free (some joined) h)
    else record {
      accepted = true;
      conn = some (record c {
        slot_filled = true;
        payload = record flagged { sql = some joined; port_id = port_id; timeout_ms = timeout_ms };
      });
      heap = h;
    }

-- The join of the statements counted.
abbrev pub joined_stmts : List (Option Text) → ℤ → Heap → Option Text × Heap
joined_stmts stmts count h = mysql_join_stmts (take (pos_part count) stmts) h

unfoldable pub mysql_pool_submit_batch :
    Option MysqlConn → Option (List (Option Text)) → ℤ → ℤ → ℤ → Heap → MysqlOutcome
mysql_pool_submit_batch none stmts count port_id timeout_ms h = mysql_refuse none h
mysql_pool_submit_batch (some c) none count port_id timeout_ms h = mysql_refuse (some c) h
mysql_pool_submit_batch (some c) (some stmts) count port_id timeout_ms h =
    if is_positive count
    then (let (joined, h') = joined_stmts stmts count h in
        commit_joined c (record (c.payload) { is_batch = true }) joined port_id timeout_ms h')
    else mysql_refuse (some c) h

unfoldable pub mysql_pool_submit_multi_read :
    Option MysqlConn → Option (List (Option Text)) → ℤ → ℤ → ℤ → Heap → MysqlOutcome
mysql_pool_submit_multi_read none reads count port_id timeout_ms h = mysql_refuse none h
mysql_pool_submit_multi_read (some c) none count port_id timeout_ms h = mysql_refuse (some c) h
mysql_pool_submit_multi_read (some c) (some reads) count port_id timeout_ms h =
    if is_positive count
    then (let (joined, h') = joined_stmts reads count h in
        commit_joined c (record (c.payload) { is_multi_read = true }) joined port_id timeout_ms h')
    else mysql_refuse (some c) h

-- A call of `execute_multi_read`, `execute_batch` or `execute_single` of the worker.
pub data MysqlJob : Type 0 where
  read_joined run_joined run_single : Option Text → MysqlJob

unfoldable pub mysql_dispatch : MysqlPayload → MysqlJob
mysql_dispatch p =
    if p.is_multi_read
    then read_joined p.sql
    else if p.is_batch
    then run_joined p.sql
    else run_single p.sql

-- The result handed over and the connection afterwards.
unfoldable pub native_mysql_poll_result : Option MysqlConn → Option Result × Option MysqlConn
native_mysql_poll_result none = (none, none)
native_mysql_poll_result (some c) = elim c.last_result [
  | [] ↦ (none, some (record c { last_result = [] }))
  | r ∷ rs ↦ (some r, some (record c { last_result = rs }))
]

unfoldable pub native_mysql_last_errno : Option MysqlConn → ℕ
native_mysql_last_errno none = 0
native_mysql_last_errno (some c) = c.last_error.errno

unfoldable pub native_mysql_last_error : Option MysqlConn → Text
native_mysql_last_error none = []
native_mysql_last_error (some c) = c.last_error.message
