-- ===== src/Examples/Mysql.antt =====
-- The worker and the pool of the MySQL driver at concrete inputs.
use dart_db_connector.Base.{
  ◌+◌, ◌≡◌, refl, zero, suc, pos, true, false, Option, none, some, List, [], ◌∷◌, arith,
}
use dart_db_connector.Heap.{Text, Gave, owned_all}
use dart_db_connector.Handles.{session, opened, closed}
use dart_db_connector.Handles.Tally.{held}
use dart_db_connector.Mailbox.{Mail, starts, submits, started, submitted}
use dart_db_connector.Mailbox.Progress.{work, Served}
use dart_db_connector.Lifecycle.{PoolAnswers, Owned, connected, no_session}
use dart_db_connector.Lifecycle.Gives.{owned_conns}
use dart_db_connector.Lifecycle.Leaves.{Leaves}
use dart_db_connector.Mysql.Execute.{MysqlStatus, succeeded}
use dart_db_connector.Mysql.Slot.{MysqlConn, MysqlJob}
use dart_db_connector.Mysql.Slot.Means.Requests.{query}
use dart_db_connector.Mysql.Worker.{Submission, MysqlRun, mysql_mailbox, mysql_worker-serves}
use dart_db_connector.Mysql.Lifecycle.{
  mysql_fresh, mysql_managed, credentials, mysql_pool_create, mysql_pool_destroy,
  mysql_pool_create-Leaves, mysql_pool_destroy-gives,
}
use dart_db_connector.Examples.Shared.{granting, select, begin}

abbrev mysql_idle : MysqlConn
mysql_idle = mysql_fresh 0

abbrev asking : Submission
asking = record { request = query (some select); port_id = pos 77; timeout_ms = pos 0 }

abbrev finished : MysqlRun
finished = record {
  ran = record { status = succeeded; last_result = []; stored = 0; freed = 0; heap = granting };
  report = record { errno = 0; message = none };
}

abbrev mysql_asked : Mail MysqlConn MysqlJob MysqlStatus
mysql_asked = submitted mysql_mailbox asking (started mysql_idle granting)

abbrev five_runs : List MysqlRun
five_runs = finished ∷ finished ∷ finished ∷ finished ∷ finished ∷ []

mysql_worker-serves_example :
    ((work mysql_mailbox five_runs mysql_asked).accepted ≡ mysql_asked.accepted)
    × Served mysql_mailbox (work mysql_mailbox five_runs mysql_asked) mysql_asked.accepted
mysql_worker-serves_example =
    mysql_worker-serves mysql_idle granting mysql_asked five_runs refl refl
      (submits asking (started mysql_idle granting) starts) (omega arith)

-- The second connection gets no session.
abbrev one_session : PoolAnswers
one_session = record {
  mutex_ok = true;
  cond_ok = true;
  inits = λ n. record {
    opening = elim n [ zero ↦ connected | suc k ↦ no_session ];
    mutex_ok = true;
    cond_ok = true;
    thread_ok = true;
  };
}

abbrev host_only : List (Option Text)
host_only = credentials (some begin) none none none

mysql_pool_create-Leaves_example :
    Leaves mysql_managed session 2 0 granting
      (mysql_pool_create host_only (pos 2) (pos 0) one_session granting)
mysql_pool_create-Leaves_example =
    mysql_pool_create-Leaves host_only (pos 2) (pos 0) one_session granting session

abbrev one_conn : Owned MysqlConn
one_conn = record {
  strings = host_only;
  free_list = record {
    default_acquire_timeout_ms = pos 0;
    conns = mysql_idle ∷ [];
    shutting_down = false;
  };
}

mysql_pool_destroy-gives_example :
    let (h', es) = mysql_pool_destroy (some one_conn) (λ n. true) (λ n. true) granting in
    Gave (owned_conns mysql_managed (mysql_idle ∷ []) + owned_all host_only + 2) granting h'
    × (closed session es ≡ opened session es + held session 1)
mysql_pool_destroy-gives_example =
    mysql_pool_destroy-gives one_conn (λ n. true) (λ n. true) granting session (refl, tt)
