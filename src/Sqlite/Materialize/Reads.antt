-- ===== src/Sqlite/Materialize/Reads.antt =====
-- From the rows that sqlite3 yields to what the accessors of native_sqlite.c read.
use dart_db_connector.Base.{
  ℕ, zero, suc, Bool, ◌≡◌, refl, ap, ◌∙◌, ℤ, pos, negsuc, true, Option, none, some, List, [], ◌∷◌,
  get_elem?, inl, inr,
}
use dart_db_connector.Heap.{Refused, Heap, Text}
use dart_db_connector.Sqlite.Results.{
  SqliteResult, sqlite_null, sqlite_cell_type, sqlite_raw_value, sqlite_raw_length,
}
use dart_db_connector.Sqlite.Results.Cells.{
  Cell, cell_at, type_of, bytes_of, length_of, accessors-cell,
}
use dart_db_connector.Sqlite.Rows.{Value, SqliteError, Statement}
use dart_db_connector.Sqlite.Rows.Stored.{kind_of, content, size_of, Copies, CopiesRow}
use dart_db_connector.Sqlite.Rows.Ends.{CopiesRows}
use dart_db_connector.Sqlite.Materialize.{Made, materialize_stmt}
use dart_db_connector.Sqlite.Materialize.Outcome.{
  IsStatement, Ending, Outcome, materialize_stmt-Outcome,
}

-- The value that the rows have at a row and a column, if there is one.
abbrev pub value_at : List (List Value) → ℤ → ℤ → Option Value
value_at rows (negsuc n) col = none
value_at rows (pos n) (negsuc m) = none
value_at rows (pos n) (pos m) = elim (get_elem? rows n) [ none ↦ none | some vs ↦ get_elem? vs m ]

-- What is to be read of a value, and of none.
abbrev pub kind_read : Option Value → ℕ
kind_read none = sqlite_null
kind_read (some v) = kind_of v

abbrev pub bytes_read : Option Value → Option Text
bytes_read none = none
bytes_read (some v) = content v

abbrev pub length_read : Option Value → ℕ
length_read none = 0
length_read (some v) = size_of v

abbrev Matches : (ℕ → Bool) → Option Value → Option Cell → Type 0
Matches grants none none = Unit
Matches grants none (some c) = ⊥
Matches grants (some v) none = ⊥
Matches grants (some v) (some c) = Copies grants v c

module _ (grants : ℕ → Bool) where
  CopiesRow-at :
      (vs : List Value) (cs : List Cell) (m : ℕ)
      → CopiesRow grants vs cs
      → Matches grants (get_elem? vs m) (get_elem? cs m)
  CopiesRow-at [] [] m k = tt
  CopiesRow-at [] (c ∷ cs) m k = elim k [ ]
  CopiesRow-at (v ∷ vs) [] m k = elim k [ ]
  CopiesRow-at (v ∷ vs) (c ∷ cs) zero k = k.0
  CopiesRow-at (v ∷ vs) (c ∷ cs) (suc m) k = CopiesRow-at vs cs m k.1

  CopiesRows-at :
      (rows : List (List Value)) (table : List (List Cell)) (row col : ℤ)
      → CopiesRows grants rows table
      → Matches grants (value_at rows row col) (cell_at table row col)
  CopiesRows-at rows table (negsuc n) col k = tt
  CopiesRows-at rows table (pos n) (negsuc m) k = tt
  CopiesRows-at [] [] (pos n) (pos m) k = tt
  CopiesRows-at [] (c ∷ cs) (pos n) (pos m) k = elim k [ ]
  CopiesRows-at (v ∷ vs) [] (pos n) (pos m) k = elim k [ ]
  CopiesRows-at (v ∷ vs) (c ∷ cs) (pos zero) (pos m) k = CopiesRow-at v c m k.0
  CopiesRows-at (v ∷ vs) (c ∷ cs) (pos (suc n)) (pos m) k = CopiesRows-at vs cs (pos n) (pos m) k.1

-- Where every request is granted.
module _ (grants : ℕ → Bool) (all : (n : ℕ) → grants n ≡ true) where
  no_refusal : ¬ Refused grants
  no_refusal (n, e) = cc (all n)

  Matches-read :
      (v : Option Value) (c : Option Cell)
      → Matches grants v c
      → (type_of c ≡ kind_read v) × (bytes_of c ≡ bytes_read v) × (length_of c ≡ length_read v)
  Matches-read none none k = (refl, refl, refl)
  Matches-read none (some c) k = elim k [ ]
  Matches-read (some v) none k = elim k [ ]
  Matches-read (some v) (some c) (t, l, inl b) = (t, b, l)
  Matches-read (some v) (some c) (t, l, inr (b, r)) = absurd (no_refusal r)

-- The accessors read the value, or what stands for none.
abbrev pub Reads : SqliteResult → Option Value → ℤ → ℤ → Type 0
Reads r v row col =
    (sqlite_cell_type (some r) row col ≡ some (kind_read v))
    × (sqlite_raw_value (some r) row col ≡ some (bytes_read v))
    × (sqlite_raw_length (some r) row col ≡ some (length_read v))

result-Reads :
    (s : Statement) (h : Heap) (result : Option SqliteResult) (err : Option SqliteError) (h' : Heap)
    → Ending h s result err h'
    → s.done ≡ true
    → ((n : ℕ) → h.grants n ≡ true)
    → (r : SqliteResult) × (result ≡ some r)
      × ((row col : ℤ) → Reads r (value_at s.rows row col) row col)
result-Reads s h none err h' (inl (e, q), b) d all = cc
result-Reads s h none err h' (inr (q, r), b) d all = absurd (no_refusal h.grants all r)
result-Reads s h (some r) err h' (a, b, c, n, (table, v, k), t) d all = (
  r,
  refl,
  λ row col.
      let (e1, e2, e3) = accessors-cell r table row col v in
      let (q1, q2, q3) =
        Matches-read h.grants all (value_at s.rows row col) (cell_at table row col)
          (CopiesRows-at h.grants s.rows table row col k) in
      (e1 ∙ ap some q1, e2 ∙ ap some q2, e3 ∙ ap some q3),
)

Outcome-Reads :
    (s : Statement) (h : Heap) (o : Option Made)
    → Outcome h s o
    → s.done ≡ true
    → ((n : ℕ) → h.grants n ≡ true)
    → (m : Made) × (r : SqliteResult) × (o ≡ some m)
      × (m.result ≡ some r)
      × ((row col : ℤ) → Reads r (value_at s.rows row col) row col)
Outcome-Reads s h none x d all = absurd (no_refusal h.grants all x)
Outcome-Reads s h (some m) (f, g, x) d all =
    let (r, e, k) = result-Reads s h m.result m.error m.heap x d all in (m, r, refl, e, k)

-- Where sqlite3 steps to the end and malloc grants every request, materialize_stmt returns a result
-- whose accessors read, at any row and column, negative ones included, the value that sqlite3
-- yielded there, or SQLITE_NULL, NULL and 0 where it yielded none.
pub materialize_stmt-Reads :
    (s : Statement) (h : Heap)
    → IsStatement s
    → s.done ≡ true
    → ((n : ℕ) → h.grants n ≡ true)
    → (m : Made) × (r : SqliteResult) × (materialize_stmt s h ≡ some m)
      × (m.result ≡ some r)
      × ((row col : ℤ) → Reads r (value_at s.rows row col) row col)
materialize_stmt-Reads s h v d all =
    Outcome-Reads s h (materialize_stmt s h) (materialize_stmt-Outcome s h v) d all
