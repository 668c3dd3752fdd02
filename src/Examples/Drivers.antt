-- ===== src/Examples/Drivers.antt =====
-- The results and the multi-read of the MySQL driver at concrete inputs.
use dart_db_connector.Base.{
  zero, suc, ◌+◌, ◌≡◌, refl, ◌⊎◌, pos, negsuc, true, false, none, some, [], ◌∷◌, length,
}
use dart_db_connector.Heap.{Grew, malloc}
use dart_db_connector.Mysql.Results.{Buffered, Result, raw_value}
use dart_db_connector.Mysql.Results.Cache.{raw_value-cell}
use dart_db_connector.Mysql.Results.Cache.Rows.{Coherent}
use dart_db_connector.Mysql.Slot.{mysql_lendable}
use dart_db_connector.Mysql.Execute.{
  Answer, more, done, MysqlRan, succeeded, aborted, wrap_read, chain_sets, mysql_execute_multi_read,
  drain_reads,
}
use dart_db_connector.Mysql.Execute.Delivery.{mysql_execute_multi_read-Handed}
use dart_db_connector.Mysql.Execute.Delivery.Rounds.{wrapped}
use dart_db_connector.Examples.Shared.{granting, select}

-- One row: a text of two bytes, and NULL.
abbrev one_row : Buffered
one_row = record {
  num_rows = 1;
  row_at = λ n. elim n [ zero ↦ some (some select ∷ none ∷ []) | suc m ↦ none ];
  lengths_at = λ n. 2 ∷ 0 ∷ [];
  name_of = λ n. none;
  type_of = λ n. none;
}

abbrev fetched : Result
fetched = record {
  res = some one_row;
  affected_rows = pos 0;
  col_count = 2;
  cached_row = negsuc 0;
  row = none;
  lengths = [];
}

fetched-Coherent : Coherent fetched one_row
fetched-Coherent = record { buffered = refl; agrees = tt }

raw_value-cell_example :
    let (value, r) = raw_value fetched (pos 0) (pos 0) in
    (value ≡ some select) × Coherent r one_row × (r.col_count ≡ 2)
raw_value-cell_example = raw_value-cell fetched one_row (pos 0) (pos 0) fetched-Coherent

-- Two reads, the second without rows.
abbrev first_read : Answer
first_read = record {
  store = some one_row;
  errno = false;
  affected = pos 1;
  num_fields = 2;
  next = more;
}

abbrev last_read : Answer
last_read = record { store = none; errno = false; affected = pos 0; num_fields = 0; next = done }

abbrev two_reads : MysqlRan
two_reads = record {
  status = succeeded;
  last_result = wrap_read first_read ∷ wrap_read last_read ∷ [];
  stored = 1;
  freed = 0;
  heap = record granting { calls = 2; allocs = 2 };
}

mysql_execute_multi_read-Handed_example :
    ((two_reads.status ≡ succeeded)
      × (two_reads.last_result ≡ wrapped (first_read ∷ last_read ∷ []))
      × (two_reads.stored ≡ two_reads.freed + chain_sets two_reads.last_result)
      × Grew (length two_reads.last_result) granting two_reads.heap)
    ⊎ ((two_reads.status ≡ aborted)
        × (two_reads.last_result ≡ [])
        × (two_reads.stored ≡ two_reads.freed)
        × Grew 0 granting two_reads.heap)
unfolding mysql_execute_multi_read drain_reads malloc
mysql_execute_multi_read-Handed_example =
    mysql_execute_multi_read-Handed [] true (first_read ∷ last_read ∷ []) granting two_reads refl
