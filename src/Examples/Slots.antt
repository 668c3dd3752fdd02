-- ===== src/Examples/Slots.antt =====
-- Submissions, the clearing of the slot, and a pool's life at concrete inputs.
use dart_db_connector.Handles.Tally.{Tally}
use dart_db_connector.Heap.{Gave}
use dart_db_connector.Base.{zero, suc, ◌≡◌, refl, pos, negsuc, true, false, some, [], ◌∷◌, arith}
use dart_db_connector.Heap.{Heap}
use dart_db_connector.Handles.{thread}
use dart_db_connector.Postgres.Conn.{Conn, empty_payload, free_slot_payload}
use dart_db_connector.Postgres.Submit.{submit_locked, submit_pipeline}
use dart_db_connector.Postgres.Ledger.{IsValid, Accounts, after}
use dart_db_connector.Postgres.ClearSlot.{free_slot_payload-Accounts}
use dart_db_connector.Postgres.Dispatch.{Request, batch, dispatch, submit}
use dart_db_connector.Postgres.Dispatch.Faithful.{Means, submit-Means}
use dart_db_connector.Postgres.Dispatch.Balance.{submit-balance}
use dart_db_connector.Postgres.Lifecycle.{PoolAnswers, fresh_conn, pool_create, pool_destroy}
use dart_db_connector.Postgres.Lifecycle.Creation.{pool_create-Leaves, pool_destroy-gives}
use dart_db_connector.Postgres.Lifecycle.Creation.Conns.{Leaves, fresh-Runs}
use dart_db_connector.Postgres.Pool.{NativePool}
use dart_db_connector.Examples.Shared.{granting, idle, idle-IsValid, select, begin}

abbrev a_batch : Request
a_batch = batch (some (some begin ∷ some select ∷ [])) (pos 2)

submit-Means_example :
    let o = submit (some idle) a_batch (pos 77) (pos 500) granting in
    (idle.slot_filled ≡ false)
    × (idle.shutdown_requested ≡ false)
    × ((after idle o).slot_filled ≡ true)
    × Means a_batch (pos 500) (dispatch (after idle o).payload)
    × ((after idle o).port_id ≡ pos 77)
unfolding submit_pipeline submit_locked
submit-Means_example = submit-Means idle a_batch (pos 77) (pos 500) granting idle-IsValid accepted
  where
    accepted : (submit (some idle) a_batch (pos 77) (pos 500) granting).accepted ≡ true
    accepted = refl

-- The second of three requests for memory is refused.
abbrev short : Heap
short = record granting { grants = λ n. elim n [ suc zero ↦ false | _ ↦ true ] }

submit-balance_example :
    let o = submit (some idle) a_batch (pos 77) (pos 500) short in
    IsValid (after idle o) × Accounts idle short (after idle o) o.heap
submit-balance_example =
    submit-balance idle a_batch (pos 77) (pos 500) short (omega arith) idle-IsValid

-- A slot that owns the vector and its copy.
abbrev loaded : Conn
loaded = record idle {
  slot_filled = true;
  payload = record empty_payload { sql = some (select ∷ []); sql_count = pos 1; port_id = pos 77 };
}

free_slot_payload-Accounts_example :
    let (c, h) = free_slot_payload loaded granting in
    Accounts loaded granting c h × (c.payload ≡ empty_payload) × IsValid c
free_slot_payload-Accounts_example =
    free_slot_payload-Accounts loaded granting
      (record { cleared = λ e. cc; sql_counted = refl; values_counted = tt })

-- The third connection's thread cannot be started.
abbrev third_fails : PoolAnswers
third_fails = record {
  mutex_ok = true;
  cond_ok = true;
  inits = λ i. record {
    connected = true;
    mutex_ok = true;
    cond_ok = true;
    thread_ok = elim i [ suc (suc zero) ↦ false | _ ↦ true ];
  };
}

pool_create-Leaves_example :
    let r = pool_create (some select) (pos 3) (negsuc 0) third_fails granting in
    Leaves thread 3 0 granting r.pool r.heap r.events
pool_create-Leaves_example =
    pool_create-Leaves (some select) (pos 3) (negsuc 0) third_fails granting thread

abbrev pool_of_one : NativePool
pool_of_one = record {
  conninfo = select;
  free_list = record {
    default_acquire_timeout_ms = negsuc 0;
    conns = fresh_conn 0 ∷ [];
    shutting_down = false;
  };
}

pool_destroy-gives_example :
    let (h, es, calls) = pool_destroy (some pool_of_one) (λ i. true) granting in
    Gave 3 granting h × Tally thread 0 1 es
pool_destroy-gives_example =
    pool_destroy-gives pool_of_one (λ i. true) 0 granting thread
      ((fresh-Runs 0).0, 0, refl, omega (arith, (fresh-Runs 0).1))
