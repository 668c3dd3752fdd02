-- ===== src/Mysql/Results/Cache/Rows.antt =====
-- What `ensure_row` of packages/dart_db_connector/native/c/src/native_mysql.c
-- makes sure of.
use mathlib.Core.Path.{subst}
use dart_db_connector.Base.{
  ℕ, ◌≡◌, refl, ap, sym, ℤ, pos, negsuc, Bool, true, false, ◌&&◌, Option, none, some, List, arith,
  if◌then◌else◌, leb, Bool-cases, Option-cases, inl, inr, ◌⊎◌,
}
use dart_db_connector.Heap.{Text}
use dart_db_connector.Mysql.Results.{
  Buffered, Result, to_int, holds_row, is_some, fetch, ensure_row, cell, nth,
}

-- What is cached is what the library answers for the cached row.
abbrev pub Agrees : Result → Buffered → ℤ → Type 0
Agrees r b (negsuc n) = Unit
Agrees r b (pos n) = (r.row ≡ b.row_at n) × (r.lengths ≡ b.lengths_at n)

pub record Coherent (r : Result) (b : Buffered) : Type 0 where
  pub buffered : r.res ≡ some b
  pub agrees : Agrees r b r.cached_row

-- The read without a cache.
abbrev pub plain_cell : Buffered → ℕ → ℤ → ℤ → Option Text
plain_cell b cols (negsuc n) col = none
plain_cell b cols (pos n) (negsuc m) = none
plain_cell b cols (pos n) (pos m) =
    if leb b.num_rows n then none else if leb cols m then none else cell (b.row_at n) m

abbrev pub plain_length : Buffered → ℕ → ℤ → ℤ → ℤ
plain_length b cols (negsuc n) col = pos 0
plain_length b cols (pos n) (negsuc m) = pos 0
plain_length b cols (pos n) (pos m) =
    if leb b.num_rows n
    then pos 0
    else if leb cols m
    then pos 0
    else elim (cell (b.row_at n) m) [ none ↦ pos 0 | some v ↦ to_int (nth (b.lengths_at n) m) ]

-- What making sure of a row comes to: there is no such row, or it is cached.
abbrev pub Ensured : Result → Buffered → ℤ → Bool × Result → Type 0
Ensured r b row x =
    Coherent x.1 b
    × (x.1.col_count ≡ r.col_count)
    × ((x.0 ≡ false)
          × ((m : ℤ)
              → (plain_cell b r.col_count row m ≡ none)
                × (plain_length b r.col_count row m ≡ pos 0))
        ⊎ (x.0 ≡ true)
          × (n : ℕ) × (row ≡ pos n)
          × (leb b.num_rows n ≡ false)
          × (x.1.row ≡ b.row_at n)
          × (x.1.lengths ≡ b.lengths_at n))

module _ (r : Result) (b : Buffered) (v : Coherent r b) (n : ℕ) where
  pub ensure-beyond : leb b.num_rows n ≡ true → ensure_row r (pos n) ≡ (false, r)
  unfolding ensure_row
  ensure-beyond e = ground (arith, v.buffered)

  pub ensure-hit :
      leb b.num_rows n ≡ false
      → (holds_row r.cached_row n && is_some r.row) ≡ true
      → ensure_row r (pos n) ≡ (true, r)
  unfolding ensure_row
  ensure-hit e h = ground (arith, v.buffered)

  pub ensure-fetch :
      leb b.num_rows n ≡ false
      → (holds_row r.cached_row n && is_some r.row) ≡ false
      → ensure_row r (pos n) ≡ (is_some (b.row_at n), fetch r b n)
  unfolding ensure_row
  ensure-fetch e h = ground (arith, v.buffered)

  pub fetch-Coherent : Coherent (fetch r b n) b
  fetch-Coherent = record { buffered = v.buffered; agrees = agrees (b.row_at n) refl }
    where
      agrees :
          (o : Option (List (Option Text)))
          → b.row_at n ≡ o
          → Agrees (fetch r b n) b (elim o [ none ↦ negsuc 0 | some cells ↦ pos n ])
      agrees none e = tt
      agrees (some cells) e = (refl, refl)

  pub holds-eq : (z : ℤ) → holds_row z n ≡ true → z ≡ pos n
  holds-eq (pos m) e = ap pos (ground arith)
  holds-eq (negsuc m) e = ground arith

  pub hit-agrees :
      (holds_row r.cached_row n && is_some r.row) ≡ true
      → (r.row ≡ b.row_at n) × (r.lengths ≡ b.lengths_at n)
  hit-agrees h = subst (Agrees r b) (holds-eq r.cached_row (ground arith)) v.agrees

-- Neither a row beyond the last nor one that the library does not give has a cell.
abbrev pub NoCells : Buffered → ℕ → ℕ → Type 0
NoCells b cols n =
    (m : ℤ) → (plain_cell b cols (pos n) m ≡ none) × (plain_length b cols (pos n) m ≡ pos 0)

pub NoCells-beyond : (b : Buffered) (cols n : ℕ) → leb b.num_rows n ≡ true → NoCells b cols n
NoCells-beyond b cols n e (pos m) = (ground arith, ground arith)
NoCells-beyond b cols n e (negsuc m) = (refl, refl)

pub NoCells-missing : (b : Buffered) (cols n : ℕ) → b.row_at n ≡ none → NoCells b cols n
NoCells-missing b cols n e (pos m) = (ground arith, ground arith)
NoCells-missing b cols n e (negsuc m) = (refl, refl)

pub ensure_row-Ensured :
    (r : Result) (b : Buffered) (row : ℤ) → Coherent r b → Ensured r b row (ensure_row r row)
ensure_row-Ensured r b (negsuc n) v = unfold ensure_row in (v, refl, inl (refl, λ m. (refl, refl)))
ensure_row-Ensured r b (pos n) v = elim (Bool-cases (leb b.num_rows n)) [
  | inl e ↦
      subst (Ensured r b (pos n)) (sym (ensure-beyond r b v n e))
        (v, refl, inl (refl, NoCells-beyond b r.col_count n e))
  | inr e ↦ elim (Bool-cases (holds_row r.cached_row n && is_some r.row)) [
    | inl h ↦
        let (p, q) = hit-agrees r b v n h in
        subst (Ensured r b (pos n)) (sym (ensure-hit r b v n e h))
          (v, refl, inr (refl, n, refl, e, p, q))
    | inr h ↦ subst (Ensured r b (pos n)) (sym (ensure-fetch r b v n e h)) (
      fetch-Coherent r b v n,
      refl,
      elim (Option-cases (b.row_at n)) [
        | inl o ↦ inl (ap is_some o, NoCells-missing b r.col_count n o)
        | inr (cells, o) ↦ inr (ap is_some o, n, refl, e, refl, refl)
      ],
    )
  ]
]

pub plain_cell-negsuc :
    (b : Buffered) (cols : ℕ) (row : ℤ) (m : ℕ) → plain_cell b cols row (negsuc m) ≡ none
plain_cell-negsuc b cols (pos n) m = refl
plain_cell-negsuc b cols (negsuc n) m = refl

pub plain_length-negsuc :
    (b : Buffered) (cols : ℕ) (row : ℤ) (m : ℕ) → plain_length b cols row (negsuc m) ≡ pos 0
plain_length-negsuc b cols (pos n) m = refl
plain_length-negsuc b cols (negsuc n) m = refl
