-- ===== src/Examples/Sqlite.antt =====
-- The SQLite driver at concrete inputs.
use dart_db_connector.Base.{
  ltb, ◌+◌, ◌≡◌, refl, subst, inl, ℤ, pos, true, false, none, some, List, [], ◌∷◌, arith, drop,
  length-drop,
}
use dart_db_connector.Heap.{Heap, Gave, owned_all}
use dart_db_connector.Handles.{mutex}
use dart_db_connector.Handles.Tally.{Tally, held}
use dart_db_connector.Sql.{sqlite_write}
use dart_db_connector.Mailbox.{Mail, Reach, starts, submits, works, started, submitted, worker_step}
use dart_db_connector.Mailbox.Progress.{work, Served}
use dart_db_connector.Lifecycle.{PoolAnswers, connected}
use dart_db_connector.Lifecycle.Gives.{owned_conns}
use dart_db_connector.Sqlite.Results.{SqliteResult}
use dart_db_connector.Sqlite.Rows.{Statement, text, integer}
use dart_db_connector.Sqlite.Materialize.{Made, materialize_stmt}
use dart_db_connector.Sqlite.Materialize.Outcome.{IsStatement, Outcome, materialize_stmt-Outcome}
use dart_db_connector.Sqlite.Materialize.Reads.{Reads, value_at, materialize_stmt-Reads}
use dart_db_connector.Sqlite.Execute.{
  succeeded, SqliteStatus, compiled, SqliteRan, Compiler, ran, sqlite_execute_multi_read,
}
use dart_db_connector.Sqlite.Execute.Delivery.{Delivered, sqlite_execute_multi_read-Delivered}
use dart_db_connector.Sqlite.Execute.Accounts.{
  IsCompiler, Account, sqlite_execute_multi_read-Account,
}
use dart_db_connector.Sqlite.Slot.{SqliteConn, SqliteJob, sqlite_conn_exec_sync, Synced, refused}
use dart_db_connector.Sqlite.Worker.{Submission, query, sqlite_mailbox}
use dart_db_connector.Sqlite.Worker.Serves.{
  sqlite_worker-serves, IsBusy, sqlite_conn_exec_sync-Excludes,
}
use dart_db_connector.Sqlite.Lifecycle.{
  sqlite_fresh, sqlite_managed, SqlitePool, sqlite_pool_create, sqlite_pool_destroy, SqliteLeaves,
  sqlite_pool_create-Leaves, sqlite_pool_destroy-gives,
}
use dart_db_connector.Examples.Shared.{granting, select, begin}

-- Two rows of one column.
abbrev two_values : Statement
two_values = record {
  columns = 1;
  rows = (text select ∷ []) ∷ (integer 7 ∷ []) ∷ [];
  done = true;
  report = record { message = []; code = 0 };
  names = some begin ∷ [];
  changes = pos 0;
}

two_values-IsStatement : IsStatement two_values
two_values-IsStatement = record {
  wide = (refl, (refl, tt));
  columns = inl (omega arith);
  names = refl;
}

materialize_stmt-Reads_example :
    (m : Made) × (r : SqliteResult) × (materialize_stmt two_values granting ≡ some m)
    × (m.result ≡ some r)
    × ((row col : ℤ) → Reads r (value_at two_values.rows row col) row col)
materialize_stmt-Reads_example =
    materialize_stmt-Reads two_values granting two_values-IsStatement refl (λ n. refl)

-- A heap that refuses everything from the fourth request on.
abbrev scarce : Heap
scarce = record granting { grants = λ n. ltb n 3 }

materialize_stmt-Outcome_example : Outcome scarce two_values (materialize_stmt two_values scarce)
materialize_stmt-Outcome_example = materialize_stmt-Outcome two_values scarce two_values-IsStatement

-- Each text of two characters and its separator is compiled to the statement.
abbrev compile_two : Compiler
compile_two = λ n t. (compiled two_values, drop 2 (drop 1 t))

multi_read-Delivered_example :
    (o : SqliteRan) × (sqlite_execute_multi_read compile_two []
        (sqlite_write [] (select ∷ []))
        granting
      ≡ ran o)
    × (o.status ≡ succeeded)
    × Delivered (two_values ∷ []) o.last_result
multi_read-Delivered_example =
    sqlite_execute_multi_read-Delivered compile_two [] (select ∷ []) (two_values ∷ []) granting
      (refl, (λ rest. refl), two_values-IsStatement, refl, tt) (λ k. refl)

compile_two-IsCompiler : IsCompiler compile_two
compile_two-IsCompiler = record {
  statement = λ n t s e. subst IsStatement (cc) two_values-IsStatement;
  advances = λ n c t. omega (arith, length-drop 2 t);
}

multi_read-Account_example :
    Account [] scarce (sqlite_execute_multi_read compile_two [] select scarce)
multi_read-Account_example =
    sqlite_execute_multi_read-Account compile_two [] select scarce compile_two-IsCompiler

abbrev sqlite_idle : SqliteConn
sqlite_idle = sqlite_fresh 0

abbrev asking : Submission
asking = record { call = query (some select); port_id = pos 77; timeout_ms = pos 0 }

abbrev finished : SqliteRan
finished = record {
  status = succeeded;
  last_result = [];
  error = none;
  prepared = 1;
  finalized = 1;
  heap = granting;
}

abbrev sqlite_asked : Mail SqliteConn SqliteJob SqliteStatus
sqlite_asked = submitted sqlite_mailbox asking (started sqlite_idle granting)

sqlite_asked-Reach : Reach sqlite_mailbox sqlite_idle granting sqlite_asked
sqlite_asked-Reach = submits asking (started sqlite_idle granting) starts

abbrev five_runs : List SqliteRan
five_runs = finished ∷ finished ∷ finished ∷ finished ∷ finished ∷ []

sqlite_worker-serves_example :
    ((work sqlite_mailbox five_runs sqlite_asked).accepted ≡ sqlite_asked.accepted)
    × Served sqlite_mailbox (work sqlite_mailbox five_runs sqlite_asked) sqlite_asked.accepted
sqlite_worker-serves_example =
    sqlite_worker-serves sqlite_idle granting sqlite_asked five_runs refl refl sqlite_asked-Reach
      (omega arith)

-- The worker has taken the request.
abbrev sqlite_busy : Mail SqliteConn SqliteJob SqliteStatus
sqlite_busy = worker_step sqlite_mailbox finished sqlite_asked

exec_sync-Excludes_example :
    (IsBusy sqlite_busy.phase
      → sqlite_conn_exec_sync (some sqlite_busy.conn) (some (compiled two_values)) sqlite_busy.heap
        ≡ some (refused, some sqlite_busy.conn, sqlite_busy.heap))
    × ((r : Synced) (c' : SqliteConn) (h' : Heap)
        → sqlite_conn_exec_sync
            (some sqlite_busy.conn)
            (some (compiled two_values))
            sqlite_busy.heap
          ≡ some (r, some c', h')
        → Reach sqlite_mailbox sqlite_idle granting (record sqlite_busy { conn = c'; heap = h' }))
exec_sync-Excludes_example =
    sqlite_conn_exec_sync-Excludes sqlite_idle granting sqlite_busy (some (compiled two_values))
      refl refl (works finished sqlite_asked sqlite_asked-Reach)

abbrev all_granted : PoolAnswers
all_granted = record {
  mutex_ok = true;
  cond_ok = true;
  inits = λ n. record { opening = connected; mutex_ok = true; cond_ok = true; thread_ok = true };
}

sqlite_pool_create-Leaves_example :
    SqliteLeaves mutex 2 granting
      (sqlite_pool_create (some begin) (pos 2) (pos 0) (pos 0) all_granted granting)
sqlite_pool_create-Leaves_example =
    sqlite_pool_create-Leaves (some begin) (pos 2) (pos 0) (pos 0) all_granted granting mutex

abbrev one_conn : SqlitePool
one_conn = record {
  owned = record {
    strings = some begin ∷ [];
    free_list = record {
      default_acquire_timeout_ms = pos 0;
      conns = sqlite_idle ∷ [];
      shutting_down = false;
    };
  };
  busy_timeout_ms = pos 5000;
}

sqlite_pool_destroy-gives_example :
    let (h', es) = sqlite_pool_destroy (some one_conn) granting in
    Gave
      (owned_conns sqlite_managed (sqlite_idle ∷ []) + owned_all (some begin ∷ []) + 2)
      granting
      h'
    × Tally mutex 0 (held mutex 1) es
sqlite_pool_destroy-gives_example = sqlite_pool_destroy-gives one_conn granting mutex (refl, tt)
