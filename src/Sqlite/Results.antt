-- ===== src/Sqlite/Results.antt =====
-- Materialised results: `struct native_sqlite_result` of
-- packages/dart_db_connector/native/c/src/sqlite_pool_internal.h and the accessors of
-- native_sqlite.c. A read of an array gives nothing where the index lies beyond the array.
pub mod Cells
use dart_db_connector.Base.{
  ℕ, ◌+◌, ◌*◌, ℤ, pos, negsuc, Bool, true, false, ◌&&◌, Option, none, some, List, [], ◌∷◌,
  if◌then◌else◌, ltb, get_elem?, take,
}
use dart_db_connector.Heap.{Heap, Text, free}

-- The cells are stored row by row. An entry of `cell_data` may be NULL; the arrays are NULL where
-- there is no row, or no column.
pub record SqliteResult : Type 0 where
  pub col_count : ℕ
  pub row_count : ℕ
  pub affected_rows : ℤ
  pub col_names : Option (List (Option Text))
  pub cell_types : Option (List ℕ)
  pub cell_lens : Option (List ℕ)
  pub cell_data : Option (List (Option Text))

abbrev pub entries {ℓ} : {A : Type ℓ} → Option (List A) → List A
entries none = []
entries (some l) = l

abbrev pub sqlite_null : ℕ
sqlite_null = 5

-- `row >= 0 && row < r->row_count && col >= 0 && col < r->col_count`
abbrev pub cell_ok : SqliteResult → ℤ → ℤ → Bool
cell_ok r (negsuc n) col = false
cell_ok r (pos n) (negsuc m) = false
cell_ok r (pos n) (pos m) = ltb n r.row_count && ltb m r.col_count

-- Taken only of a row and a column that are not negative.
abbrev pub cell_index : SqliteResult → ℤ → ℤ → ℕ
cell_index r (pos n) (pos m) = n * r.col_count + m
cell_index r _ _ = 0

unfoldable pub sqlite_cell_type : Option SqliteResult → ℤ → ℤ → Option ℕ
sqlite_cell_type none row col = some sqlite_null
sqlite_cell_type (some r) row col =
    if cell_ok r row col
    then get_elem? (entries r.cell_types) (cell_index r row col)
    else some sqlite_null

unfoldable pub sqlite_raw_value : Option SqliteResult → ℤ → ℤ → Option (Option Text)
sqlite_raw_value none row col = some none
sqlite_raw_value (some r) row col =
    if cell_ok r row col then get_elem? (entries r.cell_data) (cell_index r row col) else some none

unfoldable pub sqlite_raw_length : Option SqliteResult → ℤ → ℤ → Option ℕ
sqlite_raw_length none row col = some 0
sqlite_raw_length (some r) row col =
    if cell_ok r row col then get_elem? (entries r.cell_lens) (cell_index r row col) else some 0

-- NULL for a column out of range.
unfoldable pub sqlite_col_name : Option SqliteResult → ℤ → Option (Option Text)
sqlite_col_name none col = some none
sqlite_col_name (some r) (negsuc m) = some none
sqlite_col_name (some r) (pos m) = elim r.col_names [
  | none ↦ some none
  | some names ↦ if ltb m r.col_count then get_elem? names m else some none
]
