-- ===== src/Sqlite/Materialize/Freed.antt =====
-- What the loops over the copies free, and the copies of the column names.
use dart_db_connector.Base.{
  ℕ, suc, ◌+◌, ◌*◌, ◌≡◌, refl, ap, sym, ◌∙◌, Bool, Option, none, some, List, [], ◌∷◌, arith, length,
  take, take-length, ◌⊎◌, subst,
}
use dart_db_connector.Heap.{Refused, owned_all, Heap, Text, free, Grew, owned_by}
use dart_db_connector.Sqlite.Results.{SqliteResult, entries}
use dart_db_connector.Sqlite.Results.Cells.{Cell, mapped}
use dart_db_connector.Sqlite.Rows.{Arrays, written, dup_cell}
use dart_db_connector.Sqlite.Rows.Stored.{buffers, length-mapped, dup_cell-cases}
use dart_db_connector.Sqlite.Rows.Room.{held}
use dart_db_connector.Sqlite.Materialize.{
  free_each, free_cells, free_names, name_of, copy_names, counted, native_sqlite_clear_result,
}

-- `n` blocks have been given back.
pub record Frees (n : ℕ) (h h' : Heap) : Type 0 where
  pub frees : h'.frees ≡ h.frees + n
  pub allocs : h'.allocs ≡ h.allocs
  pub grants : h'.grants ≡ h.grants

pub free-Frees : {A : Type 0} (p : Option A) (h : Heap) → Frees (owned_by p) h (free p h)
unfolding free
free-Frees none h = record { frees = omega arith; allocs = refl; grants = refl }
free-Frees (some a) h = record { frees = refl; allocs = refl; grants = refl }

pub Frees-trans : {h h1 h2 : Heap} (m n : ℕ) → Frees m h h1 → Frees n h1 h2 → Frees (m + n) h h2
Frees-trans m n a b = record {
  frees = omega (arith, a.frees, b.frees);
  allocs = b.allocs ∙ a.allocs;
  grants = b.grants ∙ a.grants;
}

pub free_each-Frees : (ps : List (Option Text)) (h : Heap) → Frees (owned_all ps) h (free_each ps h)
unfolding free_each
free_each-Frees [] h = record { frees = omega arith; allocs = refl; grants = refl }
free_each-Frees (p ∷ ps) h =
    Frees-trans (owned_by p) (owned_all ps) (free-Frees p h) (free_each-Frees ps (free p h))

pub owned_all-mapped : (cells : List Cell) → owned_all (mapped (λ c. c.bytes) cells) ≡ buffers cells
owned_all-mapped [] = refl
owned_all-mapped (c ∷ cs) = omega (arith, owned_all-mapped cs)

pub take-bytes :
    (n : ℕ) (cells : List Cell)
    → n ≡ length cells
    → take n (mapped (λ c. c.bytes) cells) ≡ mapped (λ c. c.bytes) cells
take-bytes n cells e =
    ap (λ k. take k (mapped (λ c. c.bytes) cells)) (e ∙ sym (length-mapped (λ c. c.bytes) cells))
    ∙ take-length (mapped (λ c. c.bytes) cells)

-- `free_cells` gives back the arrays and the copies that they hold.
pub free_cells-Frees :
    (a : Arrays) (n : ℕ) (cells : List Cell) (h : Heap)
    → written a.cells ≡ mapped (λ c. c.bytes) cells
    → n ≡ length cells
    → Frees (buffers cells + held a) h (free_cells a n h)
unfolding free_cells
free_cells-Frees a n cells h e l =
    let ps = take n (written a.cells) in
    let q = ap owned_all (ap (take n) e ∙ take-bytes n cells l) ∙ owned_all-mapped cells in
    let h1 = free_each ps h in
    let h2 = free a.types h1 in
    let f1 = free_each-Frees ps h in
    let f2 = free-Frees a.types h1 in
    let f3 = free-Frees a.lens h2 in
    let f4 = free-Frees a.cells (free a.lens h2) in
    record {
      frees = omega (arith, q, f1.frees, f2.frees, f3.frees, f4.frees);
      allocs = f4.allocs ∙ f3.allocs ∙ f2.allocs ∙ f1.allocs;
      grants = f4.grants ∙ f3.grants ∙ f2.grants ∙ f1.grants;
    }

abbrev pub named : Option (List (Option Text)) → ℕ
named none = 0
named (some names) = owned_all names + 1

pub free_names-Frees :
    (names : Option (List (Option Text))) (h : Heap) → Frees (named names) h (free_names names h)
unfolding free_names
free_names-Frees none h = record { frees = omega arith; allocs = refl; grants = refl }
free_names-Frees (some names) h =
    Frees-trans (owned_all names) 1 (free_each-Frees names h)
      (free-Frees (some names) (free_each names h))

-- Each name is copied, or its copy was refused.
abbrev pub CopiesNames : (ℕ → Bool) → List (Option Text) → List (Option Text) → Type 0
CopiesNames grants [] [] = Unit
CopiesNames grants [] (c ∷ cs) = ⊥
CopiesNames grants (n ∷ ns) [] = ⊥
CopiesNames grants (n ∷ ns) (c ∷ cs) =
    ((c ≡ some (name_of n)) ⊎ ((c ≡ none) × Refused grants)) × CopiesNames grants ns cs

pub copy_names-lem :
    (ns : List (Option Text)) (h : Heap)
    → let (cs, h') = copy_names ns h in
      CopiesNames h.grants ns cs
      × (length cs ≡ length ns)
      × (h'.grants ≡ h.grants)
      × Grew (owned_all cs) h h'
unfolding copy_names
copy_names-lem [] h = (tt, refl, refl, omega arith)
copy_names-lem (n ∷ ns) h =
    let t = name_of n in
    let h1 = (dup_cell t h).1 in
    let (d, g, b) = dup_cell-cases t h in
    let (c, l, g2, b2) = copy_names-lem ns h1 in
    (
      (d, subst (λ gs. CopiesNames gs ns (copy_names ns h1).0) g c),
      ap suc l,
      g2 ∙ g,
      omega (arith, b, b2),
    )

-- The blocks that freeing a result gives back.
abbrev pub cost : SqliteResult → ℕ
cost r =
    owned_all (take (r.row_count * r.col_count) (entries r.cell_data))
    + (owned_by r.cell_data + owned_by r.cell_types + owned_by r.cell_lens)
    + named (counted r.col_count r.col_names)
    + 1

pub clear_result-Frees :
    (r : SqliteResult) (h : Heap) → Frees (cost r) h (native_sqlite_clear_result (some r) h)
unfolding native_sqlite_clear_result
clear_result-Frees r h =
    let ps = take (r.row_count * r.col_count) (entries r.cell_data) in
    let h1 = free_each ps h in
    let h2 = free r.cell_data h1 in
    let h3 = free r.cell_types h2 in
    let h4 = free r.cell_lens h3 in
    let names = counted r.col_count r.col_names in
    let f = free_each-Frees ps h in
    let fd = free-Frees r.cell_data h1 in
    let ft = free-Frees r.cell_types h2 in
    let fl = free-Frees r.cell_lens h3 in
    let fn = free_names-Frees names h4 in
    let fr = free-Frees (some r) (free_names names h4) in
    record {
      frees = omega (arith, f.frees, fd.frees, ft.frees, fl.frees, fn.frees, fr.frees);
      allocs = fr.allocs ∙ fn.allocs ∙ fl.allocs ∙ ft.allocs ∙ fd.allocs ∙ f.allocs;
      grants = fr.grants ∙ fn.grants ∙ fl.grants ∙ ft.grants ∙ fd.grants ∙ f.grants;
    }
