-- ===== src/Sqlite/Materialize/Outcome.antt =====
-- What `materialize_stmt` returns, whatever the heap answers: the rows, each cell a copy of its
-- value; or nothing, with an error and every block given back.
use dart_db_connector.Base.{
  ℕ, ◌+◌, ◌*◌, ◌<◌, ◌≤◌, ◌≡◌, refl, ap, sym, ◌∙◌, subst, Bool, true, false, Option, none, some,
  List, [], arith, ltb, length, take, take-length, Bool-cases, inl, inr, ◌⊎◌,
}
use dart_db_connector.Heap.{
  Refused, owned_all, Heap, Text, malloc, malloc-cases, malloc-grants, malloc-refused, Grew,
  owned_by,
}
use dart_db_connector.Sqlite.Results.{SqliteResult, entries}
use dart_db_connector.Sqlite.Results.Cells.{Cell, flat, Stores}
use dart_db_connector.Sqlite.Rows.{
  Value, SqliteError, set_error, nomem, Statement, Block, written, as_list, Loop, Stepped, wild,
  unallocated, stepped, step_rows,
}
use dart_db_connector.Sqlite.Rows.Stored.{buffers}
use dart_db_connector.Sqlite.Rows.Room.{held}
use dart_db_connector.Sqlite.Rows.Ends.{
  loop_of, CopiesRows, Wide, Holds, Ended, length-flat, written-at, step_rows-Ended,
}
use dart_db_connector.Sqlite.Materialize.{
  Made, unmade, free_cells, copy_names, wrap_rows, finish_rows, result_of, counted,
  materialize_stmt, native_sqlite_clear_result,
}
use dart_db_connector.Sqlite.Materialize.Freed.{
  Frees, named, cost, clear_result-Frees, take-bytes, owned_all-mapped, free_cells-Frees,
  free_names-Frees, CopiesNames, copy_names-lem,
}

-- What sqlite3 documents of a statement: a value for each column in every row, no row without a
-- column, and a name for each column.
pub record IsStatement (s : Statement) : Type 0 where
  pub wide : Wide s.columns s.rows
  pub columns : (0 < s.columns) ⊎ (s.rows ≡ [])
  pub names : length s.names ≡ s.columns

abbrev pub Names : (ℕ → Bool) → Statement → Option (List (Option Text)) → Type 0
Names grants s none = s.columns ≡ 0
Names grants s (some names) = CopiesNames grants s.names names

-- A result, or none with the error set; the blocks granted since `h0` are the result's.
abbrev pub Ending : Heap → Statement → Option SqliteResult → Option SqliteError → Heap → Type 0
Ending h0 s none err h =
    (((s.done ≡ false) × (err ≡ some (set_error s.report)))
      ⊎ ((err ≡ some nomem) × Refused h0.grants))
    × Grew 0 h0 h
Ending h0 s (some r) err h =
    (s.done ≡ true)
    × (err ≡ none)
    × (r.affected_rows ≡ s.changes)
    × Names h0.grants s r.col_names
    × ((table : List (List Cell)) × Stores r table × CopiesRows h0.grants s.rows table)
    × Grew 0 h0 (native_sqlite_clear_result (some r) h)

abbrev pub Outcome : Heap → Statement → Option Made → Type 0
Outcome h0 s none = Refused h0.grants
Outcome h0 s (some m) =
    (m.finalized ≡ 1) × (m.heap.grants ≡ h0.grants) × Ending h0 s m.result m.error m.heap

start-Ended :
    (s : Statement) (h : Heap)
    → IsStatement s
    → Ended h s.columns s.rows (step_rows s.columns s.rows (loop_of s.columns 0 []) h)
start-Ended s h v = elim v.columns [
  | inl pos ↦ step_rows-Ended h s.columns pos s.rows [] 0 [] h v.wide (omega arith) (none_held h s)
  | inr e ↦
      subst (λ rows. Ended h s.columns rows (step_rows s.columns rows (loop_of s.columns 0 []) h))
        (sym e) (unfold step_rows in ([], 0, omega arith, refl, none_held h s))
]
  where
    none_held : (h : Heap) (s : Statement) → Holds h s.columns [] [] (loop_of s.columns 0 []) h
    none_held h s = record {
      wide = tt;
      copies = tt;
      count = refl;
      cells = refl;
      grants = refl;
      ledger = omega arith;
    }

entries-as_list : {A : Type 0} (p : Option (Block A)) → entries (as_list p) ≡ written p
entries-as_list none = refl
entries-as_list (some b) = refl

owned-as_list : {A : Type 0} (p : Option (Block A)) → owned_by (as_list p) ≡ owned_by p
owned-as_list none = refl
owned-as_list (some b) = refl

-- The arrays and the copies are given back, whatever happened to the heap since.
cells-Frees :
    (h0 h h2 : Heap) (s : Statement) (seen : List (List Value)) (table : List (List Cell))
    (l : Loop)
    → Holds h0 s.columns seen table l h
    → Frees (buffers (flat table) + held l.arrays) h2 (free_cells l.arrays (l.nrows * s.columns) h2)
cells-Frees h0 h h2 s seen table l k =
    let n : l.nrows * s.columns ≡ length (flat table) =
      ap (λ (m : ℕ). m * s.columns) k.count ∙ sym (length-flat s.columns table k.wide) in
    free_cells-Frees l.arrays (l.nrows * s.columns) (flat table) h2 k.cells n

-- As many names as there are columns, or none.
abbrev Counted : Statement → Option (List (Option Text)) → Type 0
Counted s none = Unit
Counted s (some names) = length names ≡ s.columns

counted-all :
    (s : Statement) (names : Option (List (Option Text)))
    → Counted s names
    → counted s.columns names ≡ names
counted-all s none c = refl
counted-all s (some names) c = ap some (ap (λ n. take n names) (sym c) ∙ take-length names)

-- Freeing the result gives back its cells, its arrays, its names and itself.
cost-result :
    (h0 h : Heap) (s : Statement) (table : List (List Cell)) (l : Loop)
    (names : Option (List (Option Text)))
    → Holds h0 s.columns s.rows table l h
    → Counted s names
    → cost (result_of s l names) ≡ buffers (flat table) + held l.arrays + named names + 1
cost-result h0 h s table l names k c =
    let n : l.nrows * s.columns ≡ length (flat table) =
      ap (λ (m : ℕ). m * s.columns) k.count ∙ sym (length-flat s.columns table k.wide) in
    let q =
      ap owned_all (
        ap (take (l.nrows * s.columns)) (entries-as_list l.arrays.cells ∙ k.cells)
        ∙ take-bytes (l.nrows * s.columns) (flat table) n)
      ∙ owned_all-mapped (flat table) in
    omega (
      arith,
      q,
      ap named (counted-all s names c),
      owned-as_list l.arrays.types,
      owned-as_list l.arrays.lens,
      owned-as_list l.arrays.cells,
    )

module _ (h0 h1 h : Heap) (s : Statement) (table : List (List Cell)) (cap' : ℕ)
    (names : Option (List (Option Text))) where
  wrap_rows-Outcome :
      let l = loop_of s.columns cap' table in
      length table ≤ cap'
      → Holds h0 s.columns s.rows table l h1
      → s.done ≡ true
      → Counted s names
      → Names h0.grants s names
      → h.grants ≡ h0.grants
      → Grew (named names) h1 h
      → Outcome h0 s (some (wrap_rows s l names h))
  unfolding wrap_rows malloc
  wrap_rows-Outcome le k d c nm g t =
      let l = loop_of s.columns cap' table in
      let (types, lens, cells) = written-at s.columns cap' table le in
      elim (Bool-cases (h.grants h.calls)) [
        | inl e ↦
            let h2 = record h { calls = h.calls + 1; allocs = h.allocs + 1 } in
            let f = clear_result-Frees (result_of s l names) h2 in
            let q = cost-result h0 h1 s table l names k c in
            let stores : Stores (result_of s l names) table = record {
              wide = k.wide;
              tall = refl;
              types = entries-as_list l.arrays.types ∙ types;
              lens = entries-as_list l.arrays.lens ∙ lens;
              bytes = entries-as_list l.arrays.cells ∙ cells;
            } in
            rw e (
              refl,
              g,
              (
                d,
                refl,
                refl,
                nm,
                (table, stores, k.copies),
                omega (arith, f.frees, f.allocs, q, t, k.ledger),
              ),
            )
        | inr e ↦
            let h2 = record h { calls = h.calls + 1 } in
            let f = cells-Frees h0 h1 h2 s s.rows table l k in
            let fn = free_names-Frees names (free_cells l.arrays (l.nrows * s.columns) h2) in
            rw e (
              refl,
              fn.grants ∙ f.grants ∙ g,
              (
                inr (refl, subst Refused g (h.calls, e)),
                omega (arith, f.frees, f.allocs, fn.frees, fn.allocs, t, k.ledger),
              ),
            )
      ]

module _ (h0 h : Heap) (s : Statement) (v : IsStatement s) (table : List (List Cell))
    (cap' : ℕ) where
  finish_failed :
      (l : Loop)
      → s.done ≡ false
      → finish_rows s l h
        ≡ some (unmade (set_error s.report) (free_cells l.arrays (l.nrows * s.columns) h))
  unfolding finish_rows
  finish_failed l d = ground arith

  finish_bare :
      (l : Loop)
      → s.done ≡ true
      → ltb 0 s.columns ≡ false
      → finish_rows s l h ≡ some (wrap_rows s l none h)
  unfolding finish_rows
  finish_bare l d z = ground arith

  finish_crash :
      (l : Loop)
      → s.done ≡ true
      → ltb 0 s.columns ≡ true
      → (malloc h).0 ≡ false
      → finish_rows s l h ≡ none
  unfolding finish_rows
  finish_crash l d p e = ground arith

  finish_named :
      (l : Loop)
      → s.done ≡ true
      → ltb 0 s.columns ≡ true
      → (malloc h).0 ≡ true
      → let (names, h2) = copy_names s.names (malloc h).1 in
        finish_rows s l h ≡ some (wrap_rows s l (some names) h2)
  unfolding finish_rows
  finish_named l d p e = ground arith

  finish_rows-Outcome :
      let l = loop_of s.columns cap' table in
      length table ≤ cap' → Holds h0 s.columns s.rows table l h → Outcome h0 s (finish_rows s l h)
  finish_rows-Outcome le k =
      let l = loop_of s.columns cap' table in
      let out = Outcome h0 s in
      let wrap = λ (h' : Heap). wrap_rows-Outcome h0 h h' s table cap' in
      elim (Bool-cases s.done) [
        | inr d ↦
            let f = cells-Frees h0 h h s s.rows table l k in
            subst out (sym (finish_failed l d)) (
              refl,
              f.grants ∙ k.grants,
              (inl (d, refl), omega (arith, f.frees, f.allocs, k.ledger)),
            )
        | inl d ↦ elim (Bool-cases (ltb 0 s.columns)) [
          | inr z ↦
              subst out (sym (finish_bare l d z))
                (wrap h none le k d tt (ground arith) k.grants (omega arith))
          | inl p ↦ elim (malloc-cases h) [
            | inr (e, b) ↦
                subst out (sym (finish_crash l d p e))
                  (subst Refused k.grants (h.calls, malloc-refused h e))
            | inl (e, b) ↦
                let h1 = (malloc h).1 in
                let names = (copy_names s.names h1).0 in
                let (c, n, g, t) = copy_names-lem s.names h1 in
                let g1 = malloc-grants h ∙ k.grants in
                subst out (sym (finish_named l d p e)) (
                  wrap (copy_names s.names h1).1 (some names) le k d (n ∙ v.names)
                    (subst (λ gs. CopiesNames gs s.names names) g1 c) (g ∙ g1)
                    (omega (arith, b, t)))
          ]
        ]
      ]

-- Materialising a SQLite statement, whatever the heap answers: a crash happens only where a request
-- was refused. Otherwise the statement has been finalized once, and there is no result, an error
-- set - sqlite3's where the steps did not end well, or out of memory where a request was refused -
-- and every block given back; or there is a result that stores a row for each that sqlite3 yielded,
-- each cell a copy of its value or NULL where a request was refused, with its names and its count
-- of changes, whose release gives back every block granted.
pub materialize_stmt-Outcome :
    (s : Statement) (h : Heap) → IsStatement s → Outcome h s (materialize_stmt s h)
unfolding materialize_stmt
materialize_stmt-Outcome s h v =
    go (step_rows s.columns s.rows (loop_of s.columns 0 []) h) (start-Ended s h v)
  where
    go :
        (e : Stepped)
        → Ended h s.columns s.rows e
        → Outcome h s (elim e [
          | wild ↦ none
          | unallocated l h' ↦ some (unmade nomem (free_cells l.arrays (l.nrows * s.columns) h'))
          | stepped l h' ↦ finish_rows s l h'
        ])
    go wild x = elim x [ ]
    go (unallocated l h') (r, (seen, table, k)) =
        let f = cells-Frees h h' h' s seen table l k in
        (refl, f.grants ∙ k.grants, (inr (refl, r), omega (arith, f.frees, f.allocs, k.ledger)))
    go (stepped l h') (table, cap', le, q, k) =
        subst (λ x. Outcome h s (finish_rows s x h')) (sym q)
          (finish_rows-Outcome h h' s v table cap' le
            (subst (λ x. Holds h s.columns s.rows table x h') q k))

pub made-Outcome :
    (s : Statement) (h : Heap) (m : Made)
    → IsStatement s
    → materialize_stmt s h ≡ some m
    → Outcome h s (some m)
made-Outcome s h m v e = subst (Outcome h s) e (materialize_stmt-Outcome s h v)
