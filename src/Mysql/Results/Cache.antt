-- ===== src/Mysql/Results/Cache.antt =====
-- The one-row cache is invisible: a cell read through it is the cell that libmysqlclient has for the
-- row, whatever was read before.
pub mod Rows
use mathlib.Core.Path.{subst}
use dart_db_connector.Base.{
  ℕ, ◌≡◌, refl, ap, sym, ℤ, pos, negsuc, Bool, true, false, ◌&&◌, Option, none, some, List, arith,
  if◌then◌else◌, leb, Bool-cases, Option-cases, inl, inr, ◌⊎◌,
}
use dart_db_connector.Heap.{Text}
use dart_db_connector.Mysql.Results.{
  Buffered, Result, to_int, holds_row, is_some, fetch, ensure_row, cell, nth, raw_value, raw_length,
}
use dart_db_connector.Mysql.Results.Cache.Rows.{
  Agrees, Coherent, plain_cell, plain_length, Ensured, ensure-beyond, ensure-hit, ensure-fetch,
  fetch-Coherent, holds-eq, hit-agrees, NoCells, NoCells-beyond, NoCells-missing,
  ensure_row-Ensured, plain_cell-negsuc, plain_length-negsuc,
}

-- What the reads make of a row that was made sure of.
module _ (r : Result) (b : Buffered) (row : ℤ) (x : Result) where
  value-missing : (col : ℤ) → ensure_row r row ≡ (false, x) → raw_value r row col ≡ (none, x)
  unfolding raw_value
  value-missing col e = ground arith

  value-negative : (m : ℕ) → ensure_row r row ≡ (true, x) → raw_value r row (negsuc m) ≡ (none, x)
  unfolding raw_value
  value-negative m e = ground arith

  value-there :
      (m : ℕ)
      → ensure_row r row ≡ (true, x)
      → raw_value r row (pos m) ≡ ((if leb x.col_count m then none else cell x.row m), x)
  unfolding raw_value
  value-there m e = ground arith

  length-missing : (col : ℤ) → ensure_row r row ≡ (false, x) → raw_length r row col ≡ (pos 0, x)
  unfolding raw_length
  length-missing col e = ground arith

  length-negative :
      (m : ℕ) → ensure_row r row ≡ (true, x) → raw_length r row (negsuc m) ≡ (pos 0, x)
  unfolding raw_length
  length-negative m e = ground arith

  length-there :
      (m : ℕ)
      → ensure_row r row ≡ (true, x)
      → raw_length r row (pos m) ≡ (
        (if leb x.col_count m
            then pos 0
            else elim (cell x.row m) [ none ↦ pos 0 | some v ↦ to_int (nth x.lengths m) ]),
        x,
      )
  unfolding raw_length
  length-there m e = ground arith

-- A read leaves the cache coherent and answers as the read without a cache.
abbrev Reads {ℓ} : {A : Type ℓ} → Result → Buffered → A → A × Result → Type ℓ
Reads r b a x = (x.0 ≡ a) × Coherent x.1 b × (x.1.col_count ≡ r.col_count)

value-Reads :
    (r : Result) (b : Buffered) (row col : ℤ) (x : Bool × Result)
    → ensure_row r row ≡ x
    → Ensured r b row x
    → Reads r b (plain_cell b r.col_count row col) (raw_value r row col)
value-Reads r b row (negsuc m) (false, x) e (c, k, p) =
    rw (value-missing r b row x (negsuc m) e) (sym (plain_cell-negsuc b r.col_count row m), c, k)
value-Reads r b row (negsuc m) (true, x) e (c, k, p) =
    rw (value-negative r b row x m e) (sym (plain_cell-negsuc b r.col_count row m), c, k)
value-Reads r b row (pos m) (false, x) e (c, k, inl (f, p)) =
    rw (value-missing r b row x (pos m) e) (sym (p (pos m)).0, c, k)
value-Reads r b row (pos m) (false, x) e (c, k, inr (f, n, q, l, p, z)) = cc
value-Reads r b row (pos m) (true, x) e (c, k, inl (f, p)) = cc
value-Reads r b row (pos m) (true, x) e (c, k, inr (f, n, q, l, p, z)) =
    rw (value-there r b row x m e, q) (ground (arith, l, k, p), c, k)

length-Reads :
    (r : Result) (b : Buffered) (row col : ℤ) (x : Bool × Result)
    → ensure_row r row ≡ x
    → Ensured r b row x
    → Reads r b (plain_length b r.col_count row col) (raw_length r row col)
length-Reads r b row (negsuc m) (false, x) e (c, k, p) =
    rw (length-missing r b row x (negsuc m) e) (sym (plain_length-negsuc b r.col_count row m), c, k)
length-Reads r b row (negsuc m) (true, x) e (c, k, p) =
    rw (length-negative r b row x m e) (sym (plain_length-negsuc b r.col_count row m), c, k)
length-Reads r b row (pos m) (false, x) e (c, k, inl (f, p)) =
    rw (length-missing r b row x (pos m) e) (sym (p (pos m)).1, c, k)
length-Reads r b row (pos m) (false, x) e (c, k, inr (f, n, q, l, p, z)) = cc
length-Reads r b row (pos m) (true, x) e (c, k, inl (f, p)) = cc
length-Reads r b row (pos m) (true, x) e (c, k, inr (f, n, q, l, p, z)) =
    rw (length-there r b row x m e, q) (ground (arith, l, k, p, z), c, k)

-- Over a wrapper whose cached row is what libmysqlclient answers for it, a cell read for any row
-- and column, negative ones included, is the cell that the library has there, or NULL out of range;
-- the cache stays right and the column count as it was.
pub raw_value-cell :
    (r : Result) (b : Buffered) (row col : ℤ)
    → Coherent r b
    → let (value, r') = raw_value r row col in
      (value ≡ plain_cell b r.col_count row col) × Coherent r' b × (r'.col_count ≡ r.col_count)
raw_value-cell r b row col v =
    value-Reads r b row col (ensure_row r row) refl (ensure_row-Ensured r b row v)

-- Over a wrapper whose cached row is what libmysqlclient answers for it, the length read for any
-- row and column is the library's length of that cell, cut to an int, or 0 for SQL NULL and out of
-- range; the cache stays right and the column count as it was.
pub raw_length-length :
    (r : Result) (b : Buffered) (row col : ℤ)
    → Coherent r b
    → let (length, r') = raw_length r row col in
      (length ≡ plain_length b r.col_count row col) × Coherent r' b × (r'.col_count ≡ r.col_count)
raw_length-length r b row col v =
    length-Reads r b row col (ensure_row r row) refl (ensure_row-Ensured r b row v)
