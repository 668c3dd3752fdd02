-- ===== src/Sqlite/Materialize.antt =====
-- `materialize_stmt` of packages/dart_db_connector/native/c/src/sqlite_pool_worker.c from the loop's
-- end on, and `native_sqlite_clear_result` of native_sqlite.c.
pub mod Freed
pub mod Outcome
pub mod Reads
use dart_db_connector.Base.{ℕ, ◌*◌, Option, none, some, List, [], ◌∷◌, if◌then◌else◌, ltb, take}
use dart_db_connector.Heap.{Heap, Text, malloc, free}
use dart_db_connector.Sqlite.Results.{SqliteResult, entries}
use dart_db_connector.Sqlite.Rows.{
  SqliteError, set_error, nomem, Statement, Arrays, no_arrays, dup_cell, written, as_list, Loop,
  wild, unallocated, stepped, step_rows,
}

-- `for (i = 0; i < count; i++) free(data[i])`
unfoldable pub free_each : List (Option Text) → Heap → Heap
unfolding free
free_each [] h = h
free_each (p ∷ ps) h = free_each ps (free p h)

unfoldable pub free_cells : Arrays → ℕ → Heap → Heap
unfolding free_each
free_cells a count h =
    free a.cells (free a.lens (free a.types (free_each (take count (written a.cells)) h)))

-- A name that sqlite3 lacks is copied as "".
abbrev pub name_of : Option Text → Text
name_of none = []
name_of (some t) = t

-- `names[c] = (nm != NULL) ? strdup(nm) : strdup("")`
unfoldable pub copy_names : List (Option Text) → Heap → List (Option Text) × Heap
unfolding dup_cell
copy_names [] h = ([], h)
copy_names (nm ∷ nms) h =
    let (copy, h1) = dup_cell (name_of nm) h in
    let (copies, h2) = copy_names nms h1 in (copy ∷ copies, h2)

-- What `materialize_stmt` returns, the error that it has set, the calls of sqlite3_finalize, and
-- the heap.
pub record Made : Type 0 where
  pub result : Option SqliteResult
  pub error : Option SqliteError
  pub finalized : ℕ
  pub heap : Heap

abbrev pub unmade : SqliteError → Heap → Made
unmade e h = record { result = none; error = some e; finalized = 1; heap = h }

-- `if (names) { for (c = 0; c < ncol; c++) free(names[c]); free(names); }`
unfoldable pub free_names : Option (List (Option Text)) → Heap → Heap
unfolding free_each
free_names none h = h
free_names (some names) h = free (some names) (free_each names h)

-- The wrapper's fields.
abbrev pub result_of : Statement → Loop → Option (List (Option Text)) → SqliteResult
result_of s l names = record {
  col_count = s.columns;
  row_count = l.nrows;
  affected_rows = s.changes;
  col_names = names;
  cell_types = as_list l.arrays.types;
  cell_lens = as_list l.arrays.lens;
  cell_data = as_list l.arrays.cells;
}

-- From `names` on, with the names copied.
unfoldable pub wrap_rows : Statement → Loop → Option (List (Option Text)) → Heap → Made
wrap_rows s l names h =
    let (ok, h') = malloc h in
    if ok
    then record { result = some (result_of s l names); error = none; finalized = 1; heap = h' }
    else unmade nomem (free_names names (free_cells l.arrays (l.nrows * s.columns) h'))

-- The rows have been stepped. `names[c]` faults where calloc has answered NULL.
unfoldable pub finish_rows : Statement → Loop → Heap → Option Made
finish_rows s l h =
    if s.done
    then if ltb 0 s.columns
      then (let (ok, h1) = malloc h in
          if ok
          then (let (names, h2) = copy_names s.names h1 in some (wrap_rows s l (some names) h2))
          else none)
      else some (wrap_rows s l none h)
    else some (unmade (set_error s.report) (free_cells l.arrays (l.nrows * s.columns) h))

-- `none` where the code writes outside of an array, or through NULL.
unfoldable pub materialize_stmt : Statement → Heap → Option Made
materialize_stmt s h =
    elim (step_rows s.columns s.rows (record { nrows = 0; cap = 0; arrays = no_arrays }) h) [
      | wild ↦ none
      | unallocated l h' ↦ some (unmade nomem (free_cells l.arrays (l.nrows * s.columns) h'))
      | stepped l h' ↦ finish_rows s l h'
    ]

abbrev pub counted : ℕ → Option (List (Option Text)) → Option (List (Option Text))
counted n none = none
counted n (some names) = some (take n names)

unfoldable pub native_sqlite_clear_result : Option SqliteResult → Heap → Heap
native_sqlite_clear_result none h = h
native_sqlite_clear_result (some r) h =
    let total = r.row_count * r.col_count in
    let h1 = free_each (take total (entries r.cell_data)) h in
    let h2 = free r.cell_lens (free r.cell_types (free r.cell_data h1)) in
    free (some r) (free_names (counted r.col_count r.col_names) h2)
