-- ===== src/Sql.antt =====
-- Joining statements with ';' into one buffer: `join_with_semicolons` of
-- packages/dart_db_connector/native/c/src/native_pool_worker.c, and the `join_stmts` of mysql_pool.c
-- and of sqlite_pool.c. Each has a loop that adds up the size to allocate and one that writes.
pub mod Join
use dart_db_connector.Base.{
  ℕ, ◌+◌, ◌-◌, Bool, true, false, Option, none, some, List, [], ◌∷◌, ◌++◌, if◌then◌else◌, ltb,
  length,
}
use dart_db_connector.Heap.{Heap, Text, malloc}

abbrev pub semicolon : ℕ
semicolon = b';'

-- PostgreSQL: `total += strlen(queries[i]); if (i > 0) total += 1;`
unfoldable pub pg_size : ℕ → ℕ → List Text → ℕ
pg_size i total [] = total
pg_size i total (q ∷ qs) =
    pg_size (i + 1) (if ltb 0 i then total + length q + 1 else total + length q) qs

-- `if (i > 0) *p++ = ';'; memcpy(p, queries[i], len); p += len;`
unfoldable pub pg_write : ℕ → Text → List Text → Text
pg_write i out [] = out
pg_write i out (q ∷ qs) =
    pg_write (i + 1) (if ltb 0 i then (out ++ semicolon ∷ []) ++ q else out ++ q) qs

-- The joined text before its NUL, in a buffer of `pg_size 0 1` bytes.
unfoldable pub join_with_semicolons : List Text → Heap → Option Text × Heap
unfolding malloc pg_write
join_with_semicolons qs h =
    let (ok, h') = malloc h in if ok then (some (pg_write 0 [] qs), h') else (none, h')

-- MySQL and SQLite: `if (stmts[i] == NULL) return NULL; total += strlen(stmts[i]) + 1;`
unfoldable pub stmts_size : ℕ → List (Option Text) → Option ℕ
stmts_size total [] = some total
stmts_size total (none ∷ qs) = none
stmts_size total (some q ∷ qs) = stmts_size (total + length q + 1) qs

-- The statements, where none is NULL.
unfoldable pub all_texts : List (Option Text) → List Text
all_texts [] = []
all_texts (none ∷ qs) = []
all_texts (some q ∷ qs) = q ∷ all_texts qs

-- MySQL: `memcpy(p, stmts[i], n); p += n; if (i + 1 < count) *p++ = ';';`, where `left` counts the
-- statements from number i on.
unfoldable pub mysql_write : ℕ → Text → List Text → Text
mysql_write left out [] = out
mysql_write left out (q ∷ qs) =
    mysql_write (left - 1) (if ltb 1 left then (out ++ q) ++ semicolon ∷ [] else out ++ q) qs

-- SQLite: every statement is ended by ';'.
unfoldable pub sqlite_write : Text → List Text → Text
sqlite_write out [] = out
sqlite_write out (q ∷ qs) = sqlite_write ((out ++ q) ++ semicolon ∷ []) qs

unfoldable pub mysql_join_stmts : List (Option Text) → Heap → Option Text × Heap
unfolding malloc stmts_size all_texts mysql_write
mysql_join_stmts stmts h = elim (stmts_size 1 stmts) [
  | none ↦ (none, h)
  | some total ↦
      let (ok, h') = malloc h in
      if ok then (some (mysql_write (length stmts) [] (all_texts stmts)), h') else (none, h')
]

unfoldable pub sqlite_join_stmts : List (Option Text) → Heap → Option Text × Heap
unfolding malloc stmts_size all_texts sqlite_write
sqlite_join_stmts stmts h = elim (stmts_size 1 stmts) [
  | none ↦ (none, h)
  | some total ↦
      let (ok, h') = malloc h in
      if ok then (some (sqlite_write [] (all_texts stmts)), h') else (none, h')
]
