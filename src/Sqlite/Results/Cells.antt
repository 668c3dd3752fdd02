-- ===== src/Sqlite/Results/Cells.antt =====
-- Every accessor reads the cell that the rows have at the row and the column, and no index lies
-- beyond an array.
use dart_db_connector.Base.{
  ℕ, zero, suc, ◌+◌, ◌*◌, ◌<◌, ◌≤◌, ◌≡◌, refl, ap, ◌∙◌, ℤ, pos, negsuc, true, false, Option, none,
  some, List, [], ◌∷◌, ◌++◌, arith, get_elem?, length, Bool-cases, inl, inr, ◌⊎◌,
}
use dart_db_connector.Heap.{Text}
use dart_db_connector.Sqlite.Results.{
  SqliteResult, entries, sqlite_null, cell_ok, sqlite_cell_type, sqlite_raw_value,
  sqlite_raw_length,
}

-- A cell: its sqlite3_column_type, its length and its bytes.
pub record Cell : Type 0 where
  pub kind : ℕ
  pub len : ℕ
  pub bytes : Option Text

module _ {A B : Type 0} where
  abbrev pub mapped : (A → B) → List A → List B
  mapped f [] = []
  mapped f (x ∷ xs) = f x ∷ mapped f xs

  get_elem?-mapped :
      (f : A → B) (xs : List A) (i : ℕ) (x : A)
      → get_elem? xs i ≡ some x
      → get_elem? (mapped f xs) i ≡ some (f x)
  get_elem?-mapped f [] i x e = cc
  get_elem?-mapped f (y ∷ xs) zero x e = ground arith
  get_elem?-mapped f (y ∷ xs) (suc i) x e = get_elem?-mapped f xs i x e

-- Row by row.
abbrev pub flat : List (List Cell) → List Cell
flat [] = []
flat (r ∷ rs) = r ++ flat rs

abbrev pub AllWide : ℕ → List (List Cell) → Type 0
AllWide w [] = Unit
AllWide w (r ∷ rs) = (length r ≡ w) × AllWide w rs

-- The result holds the rows, each as wide as there are columns.
pub record Stores (r : SqliteResult) (table : List (List Cell)) : Type 0 where
  pub wide : AllWide r.col_count table
  pub tall : r.row_count ≡ length table
  pub types : entries r.cell_types ≡ mapped (λ c. c.kind) (flat table)
  pub lens : entries r.cell_lens ≡ mapped (λ c. c.len) (flat table)
  pub bytes : entries r.cell_data ≡ mapped (λ c. c.bytes) (flat table)

-- The cell of a row and a column, if there is one.
abbrev pub cell_at : List (List Cell) → ℤ → ℤ → Option Cell
cell_at table (negsuc n) col = none
cell_at table (pos n) (negsuc m) = none
cell_at table (pos n) (pos m) = elim (get_elem? table n) [
  | none ↦ none
  | some row ↦ get_elem? row m
]

get_elem?-left :
    (xs ys : List Cell) (i : ℕ) → i < length xs → get_elem? (xs ++ ys) i ≡ get_elem? xs i
get_elem?-left [] ys i h = absurd (omega (arith, h))
get_elem?-left (x ∷ xs) ys zero h = refl
get_elem?-left (x ∷ xs) ys (suc i) h = get_elem?-left xs ys i (omega (arith, h))

get_elem?-right :
    (xs ys : List Cell) (i : ℕ) → get_elem? (xs ++ ys) (length xs + i) ≡ get_elem? ys i
get_elem?-right [] ys i = same (0 + i) i (omega arith)
  where
    same : (j k : ℕ) → j ≡ k → get_elem? ys j ≡ get_elem? ys k
    same j k e = ap (get_elem? ys) e
get_elem?-right (x ∷ xs) ys i =
    same (suc (length xs) + i) (suc (length xs + i)) (omega arith) ∙ get_elem?-right xs ys i
  where
    same : (j k : ℕ) → j ≡ k → get_elem? (x ∷ (xs ++ ys)) j ≡ get_elem? (x ∷ (xs ++ ys)) k
    same j k e = ap (get_elem? (x ∷ (xs ++ ys))) e

flat-cell :
    (w : ℕ) (table : List (List Cell)) (n m : ℕ) (c : Cell)
    → AllWide w table
    → m < w
    → cell_at table (pos n) (pos m) ≡ some c
    → get_elem? (flat table) (n * w + m) ≡ some c
flat-cell w [] n m c a h e = cc
flat-cell w (r ∷ rs) zero m c a h e =
    ap (get_elem? (r ++ flat rs)) (omega arith)
    ∙ get_elem?-left r (flat rs) m (omega (arith, h, a.0))
    ∙ e
flat-cell w (r ∷ rs) (suc n) m c a h e =
    ap (get_elem? (r ++ flat rs)) (index n)
    ∙ get_elem?-right r (flat rs) (n * w + m)
    ∙ flat-cell w rs n m c a.1 h e
  where
    index : (k : ℕ) → suc k * w + m ≡ length r + (k * w + m)
    index k = ground (arith, a.0)

cell_at-in :
    (table : List (List Cell)) (n m w : ℕ)
    → AllWide w table
    → n < length table
    → m < w
    → (c : Cell) × (cell_at table (pos n) (pos m) ≡ some c)
cell_at-in [] n m w a h k = absurd (omega (arith, h))
cell_at-in (r ∷ rs) zero m w a h k = get_in r m (omega (arith, k, a.0))
  where
    get_in : (xs : List Cell) (i : ℕ) → i < length xs → (c : Cell) × (get_elem? xs i ≡ some c)
    get_in [] i h = absurd (omega (arith, h))
    get_in (x ∷ xs) zero h = (x, refl)
    get_in (x ∷ xs) (suc i) h = get_in xs i (omega (arith, h))
cell_at-in (r ∷ rs) (suc n) m w a h k = cell_at-in rs n m w a.1 (omega (arith, h)) k

cell_at-out :
    (table : List (List Cell)) (n m w : ℕ)
    → AllWide w table
    → (length table ≤ n) ⊎ (w ≤ m)
    → cell_at table (pos n) (pos m) ≡ none
cell_at-out [] n m w a h = refl
cell_at-out (r ∷ rs) zero m w a (inl h) = absurd (omega (arith, h))
cell_at-out (r ∷ rs) zero m w a (inr h) = beyond r m (omega (arith, h, a.0))
  where
    beyond : (xs : List Cell) (i : ℕ) → length xs ≤ i → get_elem? xs i ≡ none
    beyond [] i h = refl
    beyond (x ∷ xs) zero h = absurd (omega (arith, h))
    beyond (x ∷ xs) (suc i) h = beyond xs i (omega (arith, h))
cell_at-out (r ∷ rs) (suc n) m w a (inl h) = cell_at-out rs n m w a.1 (inl (omega (arith, h)))
cell_at-out (r ∷ rs) (suc n) m w a (inr h) = cell_at-out rs n m w a.1 (inr h)

-- What each accessor makes of a cell, and of none.
abbrev pub type_of : Option Cell → ℕ
type_of none = sqlite_null
type_of (some c) = c.kind

abbrev pub bytes_of : Option Cell → Option Text
bytes_of none = none
bytes_of (some c) = c.bytes

abbrev pub length_of : Option Cell → ℕ
length_of none = 0
length_of (some c) = c.len

abbrev Answers : Option SqliteResult → ℤ → ℤ → Option Cell → Type 0
Answers r row col c =
    (sqlite_cell_type r row col ≡ some (type_of c))
    × (sqlite_raw_value r row col ≡ some (bytes_of c))
    × (sqlite_raw_length r row col ≡ some (length_of c))

module _ (r : SqliteResult) (table : List (List Cell)) (v : Stores r table) where
  Answers-out : (row col : ℤ) → cell_ok r row col ≡ false → Answers (some r) row col none
  unfolding sqlite_cell_type sqlite_raw_value sqlite_raw_length
  Answers-out row col e = (ground arith, ground arith, ground arith)

  Answers-in :
      (n m : ℕ) (c : Cell)
      → cell_ok r (pos n) (pos m) ≡ true
      → cell_at table (pos n) (pos m) ≡ some c
      → Answers (some r) (pos n) (pos m) (some c)
  unfolding sqlite_cell_type sqlite_raw_value sqlite_raw_length
  Answers-in n m c e q =
      let f = flat-cell r.col_count table n m c v.wide (ground arith) q in
      let i = n * r.col_count + m in
      (
        ground (arith, v.types, get_elem?-mapped (λ c. c.kind) (flat table) i c f),
        ground (arith, v.bytes, get_elem?-mapped (λ c. c.bytes) (flat table) i c f),
        ground (arith, v.lens, get_elem?-mapped (λ c. c.len) (flat table) i c f),
      )

  refused : (n m : ℕ) → cell_ok r (pos n) (pos m) ≡ false → (length table ≤ n) ⊎ (r.col_count ≤ m)
  refused n m e = ground (arith, v.tall)

  Answers-cell : (row col : ℤ) → Answers (some r) row col (cell_at table row col)
  Answers-cell (negsuc n) col = Answers-out (negsuc n) col refl
  Answers-cell (pos n) (negsuc m) = Answers-out (pos n) (negsuc m) refl
  Answers-cell (pos n) (pos m) = elim (Bool-cases (cell_ok r (pos n) (pos m))) [
    | inl e ↦
        let (c, q) =
          cell_at-in table n m r.col_count v.wide (ground (arith, v.tall)) (ground arith) in
        rw q (Answers-in n m c e q)
    | inr e ↦
        rw (cell_at-out table n m r.col_count v.wide (refused n m e))
          (Answers-out (pos n) (pos m) e)
  ]

-- Over a materialised SQLite result that stores a table row by row, each row as wide as there are
-- columns: for any row and column, negative ones included, the type, the bytes and the length read
-- are those of the cell that the table has there, or SQLITE_NULL, NULL and 0 where it has none, and
-- no read lies beyond an array.
pub accessors-cell :
    (r : SqliteResult) (table : List (List Cell)) (row col : ℤ)
    → Stores r table
    → (sqlite_cell_type (some r) row col ≡ some (type_of (cell_at table row col)))
      × (sqlite_raw_value (some r) row col ≡ some (bytes_of (cell_at table row col)))
      × (sqlite_raw_length (some r) row col ≡ some (length_of (cell_at table row col)))
accessors-cell r table row col v = Answers-cell r table v row col
