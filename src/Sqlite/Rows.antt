-- ===== src/Sqlite/Rows.antt =====
-- The loop over the rows of `materialize_stmt` of
-- packages/dart_db_connector/native/c/src/sqlite_pool_worker.c: the growth of its arrays and the
-- copies of its cells. What sqlite3 answers about a prepared statement is a record, an argument.
pub mod Stored
pub mod Room
pub mod Ends
use dart_db_connector.Base.{
  ℕ, zero, suc, ◌+◌, ◌*◌, ◌/◌, ◌%◌, ℤ, Bool, true, false, ◌&&◌, ◌||◌, Option, none, some, List, [],
  ◌∷◌, ◌++◌, if◌then◌else◌, ltb, ◌==◌, length, take,
}
use dart_db_connector.Heap.{Heap, Text, malloc, realloc}
use dart_db_connector.Sqlite.Results.{sqlite_null}

-- A column of the current row; a number is given by its 64 bits.
pub data Value : Type 0 where
  null : Value
  integer real : ℕ → Value
  text blob : Text → Value

-- `last_error` and `last_error_code`.
pub record SqliteError : Type 0 where
  pub message : Text
  pub code : ℕ

abbrev pub sqlite_err_buf : ℕ
sqlite_err_buf = 512

-- `snprintf(conn->last_error, SQLITE_ERR_BUF, "%s", message)`, and the code.
unfoldable pub set_error : SqliteError → SqliteError
set_error e = record e { message = take 511 e.message }

abbrev pub nomem : SqliteError
nomem = record {
  message =
      b'o' ∷ b'u' ∷ b't' ∷ b' ' ∷ b'o' ∷ b'f' ∷ b' ' ∷ b'm' ∷ b'e' ∷ b'm' ∷ b'o' ∷ b'r' ∷ b'y' ∷ [];
  code = 7;
}

-- sqlite3's answers: sqlite3_column_count, the rows that sqlite3_step yields, whether it ends with
-- SQLITE_DONE, what sqlite3_errmsg and sqlite3_extended_errcode report if not,
-- sqlite3_column_name of each column, and sqlite3_changes.
pub record Statement : Type 0 where
  pub columns : ℕ
  pub rows : List (List Value)
  pub done : Bool
  pub report : SqliteError
  pub names : List (Option Text)
  pub changes : ℤ

-- A block of the heap as an array: the entries that it has room for, and those written so far,
-- from the first on.
pub record Block (A : Type 0) : Type 0 where
  pub room : ℕ
  pub filled : List A

-- `types`, `lens` and `data`.
pub record Arrays : Type 0 where
  pub types : Option (Block ℕ)
  pub lens : Option (Block ℕ)
  pub cells : Option (Block (Option Text))

abbrev pub no_arrays : Arrays
no_arrays = record { types = none; lens = none; cells = none }

-- `array[i] = v`: nothing where this lies outside of the block, or leaves a gap.
unfoldable pub put : {A : Type 0} → ℕ → A → Option (Block A) → Option (Option (Block A))
put i v none = none
put i v (some b) =
    if ltb i b.room && (i == length b.filled)
    then some (some (record b { filled = b.filled ++ v ∷ [] }))
    else none

unfoldable pub dup_cell : Text → Heap → Option Text × Heap
unfolding malloc
dup_cell t h = let (ok, h') = malloc h in if ok then (some t, h') else (none, h')

-- The bytes of a number in memory, the lowest first.
unfoldable pub le_bytes : ℕ → ℕ → Text
le_bytes zero w = []
le_bytes (suc k) w = (w % 256) ∷ le_bytes k (w / 256)

-- `types[i] = ty; data[i] = bytes; lens[i] = len;`
abbrev pub put_cell : ℕ → ℕ → ℕ → Option Text → Arrays → Option Arrays
put_cell i ty len bytes a = elim (put i ty a.types) [
  | none ↦ none
  | some t ↦ elim (put i bytes a.cells) [
    | none ↦ none
    | some d ↦ elim (put i len a.lens) [
      | none ↦ none
      | some l ↦ some (record { types = t; lens = l; cells = d })
    ]
  ]
]

-- A copy is stored whether or not it was granted.
abbrev pub put_copy : ℕ → ℕ → ℕ → Option Text × Heap → Arrays → Option (Arrays × Heap)
put_copy i ty len (copy, h) a = elim (put_cell i ty len copy a) [
  | none ↦ none
  | some a' ↦ some (a', h)
]

-- SQLITE_TEXT or SQLITE_BLOB.
abbrev pub put_bytes : ℕ → ℕ → Text → Arrays → Heap → Option (Arrays × Heap)
put_bytes i ty b a h =
    put_copy i ty (length b) (if ltb 0 (length b) then dup_cell b h else dup_cell [] h) a

unfoldable pub store_cell : ℕ → Value → Arrays → Heap → Option (Arrays × Heap)
unfolding put dup_cell le_bytes
store_cell i null a h = put_copy i sqlite_null 0 (none, h) a
store_cell i (integer w) a h = put_copy i 1 8 (dup_cell (le_bytes 8 w) h) a
store_cell i (real w) a h = put_copy i 2 8 (dup_cell (le_bytes 8 w) h) a
store_cell i (text b) a h = put_bytes i 3 b a h
store_cell i (blob b) a h = put_bytes i 4 b a h

-- `for (int c = 0; c < ncol; c++)`, from column c on; the cells of the row start at `base`.
unfoldable pub store_row : ℕ → ℕ → List Value → Arrays → Heap → Option (Arrays × Heap)
store_row base c [] a h = some (a, h)
store_row base c (v ∷ vs) a h = elim (store_cell (base + c) v a h) [
  | none ↦ none
  | some (a', h') ↦ store_row base (suc c) vs a' h'
]

abbrev pub written : {A : Type 0} → Option (Block A) → List A
written none = []
written (some b) = b.filled

abbrev pub as_list : {A : Type 0} → Option (Block A) → Option (List A)
as_list none = none
as_list (some b) = some b.filled

-- `realloc` to `n` entries: the pointer returned, where those written are kept.
unfoldable pub regrow : {A : Type 0} → ℕ → Option (Block A) → Heap → Option (Block A) × Heap
unfolding realloc
regrow n old h =
    let (ok, h') = realloc old h in
    if ok then (some (record { room = n; filled = written old }), h') else (none, h')

-- `if (t2) types = t2;`
abbrev pub moved : {A : Type 0} → Option (Block A) → Option (Block A) → Option (Block A)
moved none old = old
moved (some b) old = some b

abbrev pub is_null : {A : Type 0} → Option A → Bool
is_null none = true
is_null (some a) = false

-- The variables of the loop over the rows.
pub record Loop : Type 0 where
  pub nrows : ℕ
  pub cap : ℕ
  pub arrays : Arrays

abbrev pub next_cap : ℕ → ℕ
next_cap cap = if cap == 0 then 8 else cap * 2

-- The test of the three answers, and the variables assigned from them.
unfoldable pub settle :
    ℕ → Loop → Option (Block ℕ) → Option (Block ℕ) → Option (Block (Option Text)) → Bool × Loop
settle ncol l t2 l2 d2 =
    let a = l.arrays in
    if ltb 0 ncol && (is_null t2 || is_null l2 || is_null d2)
    then (
      false,
      record l {
        arrays = record {
          types = moved t2 a.types;
          lens = moved l2 a.lens;
          cells = moved d2 a.cells;
        };
      },
    )
    else (
      true,
      record l { cap = next_cap l.cap; arrays = record { types = t2; lens = l2; cells = d2 } },
    )

-- The three reallocs and what is made of their answers.
unfoldable pub grow : ℕ → Loop → Heap → Bool × Loop × Heap
grow ncol l h =
    let n = next_cap l.cap * ncol in
    let (t2, h1) = regrow n l.arrays.types h in
    let (l2, h2) = regrow n l.arrays.lens h1 in
    let (d2, h3) = regrow n l.arrays.cells h2 in
    let (ok, l') = settle ncol l t2 l2 d2 in (ok, l', h3)

-- `if (nrows == cap)`
unfoldable pub make_room : ℕ → Loop → Heap → Bool × Loop × Heap
make_room ncol l h = if l.nrows == l.cap then grow ncol l h else (true, l, h)

-- How the loop over the rows ends: with a write outside of an array, with a realloc that was
-- refused, or where sqlite3_step yields no more row.
pub data Stepped : Type 0 where
  wild : Stepped
  unallocated stepped : Loop → Heap → Stepped

-- `while ((rc = sqlite3_step(stmt)) == SQLITE_ROW)`
unfoldable pub step_rows : ℕ → List (List Value) → Loop → Heap → Stepped
step_rows ncol [] l h = stepped l h
step_rows ncol (vs ∷ rows) l h =
    let (ok, l1, h1) = make_room ncol l h in
    elim ok [
      | false ↦ unallocated l1 h1
      | true ↦ elim (store_row (l1.nrows * ncol) 0 vs l1.arrays h1) [
        | none ↦ wild
        | some (a, h2) ↦ step_rows ncol rows (record l1 { nrows = suc (l1.nrows); arrays = a }) h2
      ]
    ]
