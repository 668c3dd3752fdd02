-- ===== src/Sqlite/Execute.antt =====
-- The execution paths of packages/dart_db_connector/native/c/src/sqlite_pool_worker.c. What
-- sqlite3_prepare_v2 and sqlite3_exec answer are arguments.
pub mod Delivery
pub mod Accounts
use dart_db_connector.Base.{
  ℕ, zero, suc, ◌+◌, ℤ, pos, Bool, true, false, ◌||◌, Option, none, some, List, [], ◌∷◌, ◌++◌,
  if◌then◌else◌, ◌==◌, length, take,
}
use dart_db_connector.Heap.{Heap, Text, malloc}
use dart_db_connector.Sql.{semicolon}
use dart_db_connector.Sqlite.Results.{SqliteResult}
use dart_db_connector.Sqlite.Rows.{SqliteError, set_error, Statement}
use dart_db_connector.Sqlite.Materialize.{Made, materialize_stmt, native_sqlite_clear_result}

-- WORKER_PORT_OK and WORKER_PORT_ABORTED.
pub data SqliteStatus : Type 0 where
  succeeded aborted : SqliteStatus

-- An answer of sqlite3_prepare_v2: an error, a NULL statement with what sqlite3 reports of a step
-- of it, or a statement.
pub data Prepared : Type 0 where
  rejected blank : SqliteError → Prepared
  compiled : Statement → Prepared

-- How a path ended: its status, `last_result` as a chain, the error that it has set, the statements
-- prepared and finalized, and the heap.
pub record SqliteRan : Type 0 where
  pub status : SqliteStatus
  pub last_result : List SqliteResult
  pub error : Option SqliteError
  pub prepared : ℕ
  pub finalized : ℕ
  pub heap : Heap

abbrev pub failed : List SqliteResult → Option SqliteError → ℕ → ℕ → Heap → SqliteRan
failed old e prepared finalized h = record {
  status = aborted;
  last_result = old;
  error = e;
  prepared = prepared;
  finalized = finalized;
  heap = h;
}

-- `res == NULL`, or `conn->last_result = res`.
abbrev pub keep_made : List SqliteResult → Made → SqliteRan
keep_made old m = elim m.result [
  | none ↦ failed old m.error 1 m.finalized m.heap
  | some r ↦ record {
    status = succeeded;
    last_result = r ∷ [];
    error = none;
    prepared = 1;
    finalized = m.finalized;
    heap = m.heap;
  }
]

-- A NULL statement has no column, and its step fails.
abbrev pub null_statement : SqliteError → Statement
null_statement e = record {
  columns = 0;
  rows = [];
  done = false;
  report = e;
  names = [];
  changes = pos 0;
}

abbrev pub run_made : List SqliteResult → Option Made → Option SqliteRan
run_made old none = none
run_made old (some m) = some (keep_made old m)

-- `old` is `last_result` before; `none` is a crash of materialize_stmt.
unfoldable pub sqlite_pool_execute_query : List SqliteResult → Prepared → Heap → Option SqliteRan
sqlite_pool_execute_query old (rejected e) h = some (failed old (some (set_error e)) 0 0 h)
sqlite_pool_execute_query old (blank e) h = run_made old (materialize_stmt (null_statement e) h)
sqlite_pool_execute_query old (compiled s) h = run_made old (materialize_stmt s h)

-- An answer of sqlite3_exec: success, or its message, which may be NULL, and the extended code.
pub data Executed : Type 0 where
  done : Executed
  broken : Option Text → ℕ → Executed

abbrev pub batch_message : Option Text → Text
batch_message none =
    b'b' ∷ b'a' ∷ b't' ∷ b'c' ∷ b'h' ∷ b' ' ∷ b'f' ∷ b'a' ∷ b'i' ∷ b'l' ∷ b'e' ∷ b'd' ∷ []
batch_message (some t) = t

abbrev pub empty_result : SqliteResult
empty_result = record {
  col_count = 0;
  row_count = 0;
  affected_rows = pos 0;
  col_names = none;
  cell_types = none;
  cell_lens = none;
  cell_data = none;
}

unfoldable pub sqlite_execute_batch : List SqliteResult → Executed → Heap → SqliteRan
unfolding malloc set_error
sqlite_execute_batch old (broken err code) h =
    failed old (some (set_error (record { message = batch_message err; code = code }))) 0 0 h
sqlite_execute_batch old done h =
    let (ok, h') = malloc h in
    if ok
    then record {
      status = succeeded;
      last_result = empty_result ∷ [];
      error = none;
      prepared = 0;
      finalized = 0;
      heap = h';
    }
    else failed old none 0 0 h'

-- `free_result_chain`
unfoldable pub sqlite_free_result_chain : List SqliteResult → Heap → Heap
sqlite_free_result_chain [] h = h
sqlite_free_result_chain (r ∷ rs) h =
    sqlite_free_result_chain rs (native_sqlite_clear_result (some r) h)

-- A character that is skipped before a statement.
abbrev pub is_separator : ℕ → Bool
is_separator c = c == b' ' || c == 9 || c == 10 || c == 13 || c == semicolon

unfoldable pub skip_separators : Text → Text
skip_separators [] = []
skip_separators (c ∷ t) = let rest = skip_separators t in if is_separator c then rest else c ∷ t

-- The answers of sqlite3_prepare_v2 and its pzTail, to call number n on a text.
abbrev pub Compiler : Type 0
Compiler = ℕ → Text → Prepared × Text

-- How the loop ended: `exhausted` where the rounds given do not suffice.
pub data ReadRun : Type 0 where
  exhausted crashed : ReadRun
  ran : SqliteRan → ReadRun

abbrev pub drop_chain :
    List SqliteResult → List SqliteResult → Option SqliteError → ℕ → ℕ → Heap → ReadRun
drop_chain old chain e prepared finalized h =
    ran (failed old e prepared finalized (sqlite_free_result_chain chain h))

-- The rest of the loop, on its chain, the statements prepared and finalized, and the heap.
abbrev pub ReadLoop : Type 0
ReadLoop = List SqliteResult → ℕ → ℕ → Heap → ReadRun

-- `w == NULL`, or the wrapper is appended.
abbrev pub read_result :
    List SqliteResult
    → List SqliteResult
    → ℕ
    → ℕ
    → Option SqliteError
    → Heap
    → ReadLoop
    → Option SqliteResult
    → ReadRun
read_result old chain prepared finalized e h rest none = drop_chain old chain e prepared finalized h
read_result old chain prepared finalized e h rest (some w) =
    rest (chain ++ w ∷ []) prepared finalized h

abbrev pub read_made :
    List SqliteResult → List SqliteResult → ℕ → ℕ → ReadLoop → Option Made → ReadRun
read_made old chain prepared finalized rest none = crashed
read_made old chain prepared finalized rest (some m) =
    read_result old chain (suc prepared) (finalized + m.finalized) m.error m.heap rest m.result

-- What the answer of sqlite3_prepare_v2 leads to.
abbrev pub read_answer :
    List SqliteResult → List SqliteResult → ℕ → ℕ → Heap → ReadLoop → Prepared → ReadRun
read_answer old chain prepared finalized h rest (rejected e) =
    drop_chain old chain (some (set_error e)) prepared finalized h
read_answer old chain prepared finalized h rest (blank e) = rest chain prepared finalized h
read_answer old chain prepared finalized h rest (compiled s) =
    read_made old chain prepared finalized rest (materialize_stmt s h)

-- One round, on the text without its separators; `again` is the loop on the next text.
abbrev pub read_at :
    Compiler
    → List SqliteResult
    → (Text → ReadLoop)
    → ℕ
    → List SqliteResult
    → ℕ
    → ℕ
    → Heap
    → Text
    → ReadRun
read_at compile old again n chain prepared finalized h [] = ran (record {
  status = succeeded;
  last_result = chain;
  error = none;
  prepared = prepared;
  finalized = finalized;
  heap = h;
})
read_at compile old again n chain prepared finalized h (c ∷ rest) =
    let (answer, next) = compile n (c ∷ rest) in
    read_answer old chain prepared finalized h (again next) answer

-- `while (cursor != NULL && *cursor != '\0')` of `execute_multi_read`: the rounds left, the calls of
-- prepare so far, the rest of the text, and the loop's state.
unfoldable pub read_statements : Compiler → List SqliteResult → ℕ → ℕ → Text → ReadLoop
read_statements compile old zero n t chain prepared finalized h = exhausted
read_statements compile old (suc fuel) n t chain prepared finalized h =
    read_at compile old (read_statements compile old fuel (suc n)) n chain prepared finalized h
      (skip_separators t)

-- A round for each character of the text, and one more.
unfoldable pub sqlite_execute_multi_read : Compiler → List SqliteResult → Text → Heap → ReadRun
sqlite_execute_multi_read compile old sql h =
    read_statements compile old (suc (length sql)) 0 sql [] 0 0 h
