-- ===== src/Mysql/Execute.antt =====
-- The execution paths of packages/dart_db_connector/native/c/src/mysql_pool_worker.c. What
-- libmysqlclient answers is an argument; each MYSQL_RES that mysql_store_result gives is counted
-- until mysql_free_result takes it.
pub mod Delivery
use dart_db_connector.Base.{
  ℕ, zero, suc, ◌+◌, ℤ, pos, negsuc, Bool, true, false, ◌&&◌, Option, none, some, List, [], ◌∷◌,
  ◌++◌, if◌then◌else◌, length,
}
use dart_db_connector.Heap.{Heap, malloc}
use dart_db_connector.Mysql.Results.{Buffered, Result, is_some}

-- WORKER_PORT_OK and WORKER_PORT_ABORTED.
pub data MysqlStatus : Type 0 where
  succeeded aborted : MysqlStatus

-- mysql_next_result: 0, -1, or positive.
pub data Next : Type 0 where
  more done error : Next

-- One statement's answers: mysql_store_result, whether mysql_errno is not 0 then,
-- mysql_affected_rows, mysql_num_fields, and mysql_next_result.
pub record Answer : Type 0 where
  pub store : Option Buffered
  pub errno : Bool
  pub affected : ℤ
  pub num_fields : ℕ
  pub next : Next

-- How a path ended: its status, `last_result`, the sets stored and freed, and the heap.
pub record MysqlRan : Type 0 where
  pub status : MysqlStatus
  pub last_result : List Result
  pub stored : ℕ
  pub freed : ℕ
  pub heap : Heap

abbrev pub sets : Option Buffered → ℕ
sets none = 0
sets (some b) = 1

-- The sets that a chain of wrappers owns.
abbrev pub chain_sets : List Result → ℕ
chain_sets [] = 0
chain_sets (r ∷ rs) = sets r.res + chain_sets rs

abbrev pub abort : List Result → ℕ → ℕ → Heap → MysqlRan
abort old stored freed h = record {
  status = aborted;
  last_result = old;
  stored = stored;
  freed = freed;
  heap = h;
}

-- A wrapper as `execute_single` fills it.
abbrev pub wrap_single : Answer → Result
wrap_single a = record {
  res = a.store;
  affected_rows = elim a.store [ none ↦ a.affected | some b ↦ pos 0 ];
  col_count = elim a.store [ none ↦ 0 | some b ↦ a.num_fields ];
  cached_row = negsuc 0;
  row = none;
  lengths = [];
}

-- A wrapper of a multi-read, which leaves `affected_rows` at 0.
abbrev pub wrap_read : Answer → Result
wrap_read a = record (wrap_single a) { affected_rows = pos 0 }

-- `res == NULL && mysql_errno(my) != 0`
abbrev pub lacks_result : Answer → Bool
lacks_result a = elim a.store [ none ↦ a.errno | some b ↦ false ]

-- `old` is `last_result` before; `sent` is whether mysql_real_query returns 0.
unfoldable pub mysql_execute_single : List Result → Bool → Answer → Heap → MysqlRan
mysql_execute_single old sent a h =
    if sent
    then if lacks_result a
      then abort old 0 0 h
      else (let (ok, h') = malloc h in
          if ok
          then record {
            status = succeeded;
            last_result = wrap_single a ∷ [];
            stored = sets a.store;
            freed = 0;
            heap = h';
          }
          else abort old (sets a.store) (sets a.store) h')
    else abort old 0 0 h

-- The `while (1)` of `execute_batch` and the wrapper after it.
unfoldable pub drain_batch : List Result → List Answer → ℕ → Heap → Option MysqlRan
drain_batch old [] seen h = none
drain_batch old (a ∷ as') seen h =
    let n = seen + sets a.store in
    let rest = drain_batch old as' n h in
    if lacks_result a then some (abort old n n h) else elim a.next [
      | error ↦ some (abort old n n h)
      | more ↦ rest
      | done ↦
          let (ok, h') = malloc h in
          if ok
          then some (record {
            status = succeeded;
            last_result =
                record {
                  res = none;
                  affected_rows = pos 0;
                  col_count = 0;
                  cached_row = negsuc 0;
                  row = none;
                  lengths = [];
                }
                ∷ [];
            stored = n;
            freed = n;
            heap = h';
          })
          else some (abort old n n h')
    ]

unfoldable pub mysql_execute_batch : List Result → Bool → List Answer → Heap → Option MysqlRan
mysql_execute_batch old sent answers h =
    if sent then drain_batch old answers 0 h else some (abort old 0 0 h)

-- `free_result_chain(head)`: the sets freed, and the heap.
unfoldable pub free_chain : List Result → Heap → ℕ × Heap
free_chain [] h = (0, h)
free_chain (r ∷ rs) h =
    let (n, h') = free_chain rs (record h { frees = h.frees + 1 }) in (sets r.res + n, h')

-- The partial chain is freed and the path aborts, with `own` more sets freed.
abbrev pub drop_reads : List Result → List Result → ℕ → ℕ → Heap → MysqlRan
drop_reads old chain stored own h =
    let (n, h') = free_chain chain h in abort old stored (own + n) h'

-- The `while (1)` of `execute_multi_read`, with the chain so far.
unfoldable pub drain_reads : List Result → List Answer → List Result → ℕ → Heap → Option MysqlRan
unfolding free_chain
drain_reads old [] chain seen h = none
drain_reads old (a ∷ as') chain seen h =
    let n = seen + sets a.store in
    let (ok, h') = malloc h in
    let chain' = chain ++ wrap_read a ∷ [] in
    let rest = drain_reads old as' chain' n h' in
    if lacks_result a
    then some (drop_reads old chain n 0 h)
    else if ok
    then elim a.next [
      | error ↦ some (drop_reads old chain' n 0 h')
      | more ↦ rest
      | done ↦
          some
            (record { status = succeeded; last_result = chain'; stored = n; freed = 0; heap = h' })
    ]
    else some (drop_reads old chain n (sets a.store) h')

unfoldable pub mysql_execute_multi_read : List Result → Bool → List Answer → Heap → Option MysqlRan
mysql_execute_multi_read old sent answers h =
    if sent then drain_reads old answers [] 0 h else some (abort old 0 0 h)
