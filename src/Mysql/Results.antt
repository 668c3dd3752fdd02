-- ===== src/Mysql/Results.antt =====
-- Result wrappers: `struct native_mysql_result` of
-- packages/dart_db_connector/native/c/src/mysql_pool_internal.h and the accessors of native_mysql.c.
-- What libmysqlclient has buffered for a MYSQL_RES is a record of its answers.
pub mod Cache
use dart_db_connector.Base.{
  ℕ, zero, suc, ◌+◌, ◌-◌, ◌^◌, ◌%◌, ℤ, pos, negsuc, Bool, true, false, ◌&&◌, ◌||◌, not, Option,
  none, some, List, [], ◌∷◌, if◌then◌else◌, ltb, leb, ◌==◌, get_elem?,
}
use dart_db_connector.Heap.{Heap, Text, free}

-- The answers of mysql_num_rows, of mysql_fetch_row and mysql_fetch_lengths after a seek to a row,
-- and of mysql_fetch_field_direct.
pub record Buffered : Type 0 where
  pub num_rows : ℕ
  pub row_at : ℕ → Option (List (Option Text))
  pub lengths_at : ℕ → List ℕ
  pub name_of : ℕ → Option Text
  pub type_of : ℕ → Option ℕ

-- `cached_row` is -1 for none. The borrowed row and lengths point into the library's buffers.
pub record Result : Type 0 where
  pub res : Option Buffered
  pub affected_rows : ℤ
  pub col_count : ℕ
  pub cached_row : ℤ
  pub row : Option (List (Option Text))
  pub lengths : List ℕ

-- `(int)n` of an unsigned long.
abbrev pub to_int : ℕ → ℤ
to_int n = let m = n % 2 ^ 32 in if ltb m (2 ^ 31) then pos m else negsuc (2 ^ 32 - 1 - m)

abbrev pub holds_row : ℤ → ℕ → Bool
holds_row (pos n) m = n == m
holds_row (negsuc n) m = false

abbrev pub is_some {ℓ} : {A : Type ℓ} → Option A → Bool
is_some none = false
is_some (some a) = true

-- The seek and the two fetches.
abbrev pub fetch : Result → Buffered → ℕ → Result
fetch r b n = record r {
  row = b.row_at n;
  lengths = b.lengths_at n;
  cached_row = elim (b.row_at n) [ none ↦ negsuc 0 | some cells ↦ pos n ];
}

-- Whether it returns 0, and the wrapper afterwards.
unfoldable pub ensure_row : Result → ℤ → Bool × Result
ensure_row r (negsuc n) = (false, r)
ensure_row r (pos n) = elim r.res [
  | none ↦ (false, r)
  | some b ↦
      if leb b.num_rows n
      then (false, r)
      else if holds_row r.cached_row n && is_some r.row
      then (true, r)
      else (let r' = fetch r b n in (is_some r'.row, r'))
]

-- `row[col]`: a NULL row is never read.
abbrev pub cell : Option (List (Option Text)) → ℕ → Option Text
cell none col = none
cell (some cells) col = elim (get_elem? cells col) [ none ↦ none | some v ↦ v ]

abbrev pub nth : List ℕ → ℕ → ℕ
nth [] i = 0
nth (n ∷ ns) zero = n
nth (n ∷ ns) (suc i) = nth ns i

-- `none` is NULL. The wrapper keeps what `ensure_row` cached also where the column is refused.
unfoldable pub raw_value : Result → ℤ → ℤ → Option Text × Result
raw_value r row col =
    let (ok, r') = ensure_row r row in
    if not ok then (none, r') else elim col [
      | negsuc n ↦ (none, r')
      | pos n ↦ if leb r'.col_count n then (none, r') else (cell r'.row n, r')
    ]

unfoldable pub raw_length : Result → ℤ → ℤ → ℤ × Result
raw_length r row col =
    let (ok, r') = ensure_row r row in
    if not ok then (pos 0, r') else elim col [
      | negsuc n ↦ (pos 0, r')
      | pos n ↦ if leb r'.col_count n then (pos 0, r') else elim (cell r'.row n) [
        | none ↦ (pos 0, r')
        | some v ↦ (to_int (nth r'.lengths n), r')
      ]
    ]

-- A NULL result has no row. The result comes back with its cache.
unfoldable pub native_mysql_raw_value : Option Result → ℤ → ℤ → Option Text × Option Result
unfolding raw_value
native_mysql_raw_value none row col = (none, none)
native_mysql_raw_value (some r) row col = let (v, r') = raw_value r row col in (v, some r')

unfoldable pub native_mysql_raw_length : Option Result → ℤ → ℤ → ℤ × Option Result
unfolding raw_length
native_mysql_raw_length none row col = (pos 0, none)
native_mysql_raw_length (some r) row col = let (n, r') = raw_length r row col in (n, some r')

unfoldable pub field_name : Option Result → ℤ → Option Text
field_name none col = none
field_name (some r) (negsuc n) = none
field_name (some r) (pos n) = elim r.res [
  | none ↦ none
  | some b ↦ if leb r.col_count n then none else b.name_of n
]

unfoldable pub field_type : Option Result → ℤ → ℕ
field_type none col = 0
field_type (some r) (negsuc n) = 0
field_type (some r) (pos n) = elim r.res [
  | none ↦ 0
  | some b ↦ if leb r.col_count n then 0 else elim (b.type_of n) [ none ↦ 0 | some t ↦ t ]
]

unfoldable pub row_count : Option Result → ℤ
row_count none = pos 0
row_count (some r) = elim r.res [ none ↦ pos 0 | some b ↦ to_int b.num_rows ]

unfoldable pub col_count : Option Result → ℕ
col_count none = 0
col_count (some r) = elim r.res [ none ↦ 0 | some b ↦ r.col_count ]

-- The wrappers of a chain in the order of their `next` links; mysql_free_result is not a block of
-- ours.
unfoldable pub clear_result : Option Result → Heap → Heap
unfolding free
clear_result none h = h
clear_result (some r) h = free (some r) h
