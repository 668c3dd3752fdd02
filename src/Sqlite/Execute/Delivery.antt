-- ===== src/Sqlite/Execute/Delivery.antt =====
-- A multi-read of joined statements hands over one result for each statement, in order.
use dart_db_connector.Base.{
  ℕ, zero, suc, ◌+◌, ◌<◌, ◌≡◌, refl, sym, ap, ◌∙◌, subst, ℤ, true, false, none, some, List, [], ◌∷◌,
  ◌++◌, append_assoc, append-nil, arith, length, length-append,
}
use dart_db_connector.Heap.{Heap, Text}
use dart_db_connector.Sql.{semicolon, sqlite_write}
use dart_db_connector.Sql.Join.{terminated, sqlite_write-terminated}
use dart_db_connector.Sqlite.Results.{SqliteResult}
use dart_db_connector.Sqlite.Rows.{Statement}
use dart_db_connector.Sqlite.Materialize.{Made, materialize_stmt}
use dart_db_connector.Sqlite.Materialize.Outcome.{IsStatement, made-Outcome}
use dart_db_connector.Sqlite.Materialize.Reads.{value_at, Reads, materialize_stmt-Reads}
use dart_db_connector.Sqlite.Execute.{
  succeeded, compiled, SqliteRan, is_separator, skip_separators, Compiler, ran, read_statements,
  sqlite_execute_multi_read,
}

-- A statement's text, which does not start with a separator.
abbrev pub IsBare : Text → Type 0
IsBare [] = ⊥
IsBare (c ∷ t) = is_separator c ≡ false

-- sqlite3 compiles each text, ended by ';', to its statement and leaves the rest, from call number
-- n on; each statement steps to its end.
abbrev pub Compiles : Compiler → ℕ → List Text → List Statement → Type 0
Compiles compile n [] [] = Unit
Compiles compile n [] (s ∷ ss) = ⊥
Compiles compile n (q ∷ qs) [] = ⊥
Compiles compile n (q ∷ qs) (s ∷ ss) =
    IsBare q
    × ((rest : Text) → compile n (q ++ semicolon ∷ rest) ≡ (compiled s, rest))
    × IsStatement s
    × (s.done ≡ true)
    × Compiles compile (suc n) qs ss

-- One result for each statement, in order, whose accessors read the statement's rows.
abbrev pub Delivered : List Statement → List SqliteResult → Type 0
Delivered [] [] = Unit
Delivered [] (r ∷ rs) = ⊥
Delivered (s ∷ ss) [] = ⊥
Delivered (s ∷ ss) (r ∷ rs) =
    ((row col : ℤ) → Reads r (value_at s.rows row col) row col) × Delivered ss rs

skip-bare : (q : Text) (rest : Text) → IsBare q → skip_separators (q ++ rest) ≡ q ++ rest
unfolding skip_separators
skip-bare [] rest b = elim b [ ]
skip-bare (c ∷ t) rest b = rw b refl

module _ (compile : Compiler) (old : List SqliteResult) (fuel n : ℕ) (chain : List SqliteResult)
    (p f : ℕ) (h : Heap) where
  -- One round on a statement that is compiled and materialised.
  round :
      (q rest : Text) (s : Statement) (m : Made) (r : SqliteResult)
      → IsBare q
      → compile n (q ++ semicolon ∷ rest) ≡ (compiled s, rest)
      → materialize_stmt s h ≡ some m
      → m.result ≡ some r
      → read_statements compile old (suc fuel) n (q ++ semicolon ∷ rest) chain p f h
        ≡ read_statements compile old fuel
            (suc n)
            rest
            (chain ++ r ∷ [])
            (suc p)
            (f + m.finalized)
            m.heap
  unfolding read_statements
  round [] rest s m r b c e k = elim b [ ]
  round (x ∷ t) rest s m r b c e k = ground (arith, skip-bare (x ∷ t) (semicolon ∷ rest) b)

  finished :
      read_statements compile old (suc fuel) n [] chain p f h
      ≡ ran (record {
        status = succeeded;
        last_result = chain;
        error = none;
        prepared = p;
        finalized = f;
        heap = h;
      })
  unfolding read_statements skip_separators
  finished = refl

Delivered-some :
    (compile : Compiler) (old : List SqliteResult) (qs : List Text) (ss : List Statement)
    (fuel n : ℕ) (chain : List SqliteResult) (p f : ℕ) (h : Heap)
    → length qs < fuel
    → Compiles compile n qs ss
    → ((k : ℕ) → h.grants k ≡ true)
    → (o : SqliteRan) × (rs : List SqliteResult) × (read_statements compile old fuel n
          (terminated qs)
          chain
          p
          f
          h
        ≡ ran o)
      × (o.status ≡ succeeded)
      × (o.last_result ≡ chain ++ rs)
      × Delivered ss rs
Delivered-some compile old qs ss zero n chain p f h l c g = elim l [ ]
Delivered-some compile old [] [] (suc fuel) n chain p f h l c g = (
  record {
    status = succeeded;
    last_result = chain;
    error = none;
    prepared = p;
    finalized = f;
    heap = h;
  },
  [],
  finished compile old fuel n chain p f h,
  refl,
  sym (append-nil chain),
  tt,
)
Delivered-some compile old [] (s ∷ ss) (suc fuel) n chain p f h l c g = elim c [ ]
Delivered-some compile old (q ∷ qs) [] (suc fuel) n chain p f h l c g = elim c [ ]
Delivered-some compile old (q ∷ qs) (s ∷ ss) (suc fuel) n chain p f h l (b, c, v, d, more) g =
    let (m, r, e, k, reads) = materialize_stmt-Reads s h v d g in
    let (o, rs, e2, st, last, all) =
      Delivered-some compile old qs ss fuel (suc n) (chain ++ r ∷ []) (suc p) (f + m.finalized)
        m.heap (omega (arith, l)) more (λ i. ap (λ gs. gs i) (made-Outcome s h m v e).1 ∙ g i) in
    (
      o,
      r ∷ rs,
      round compile old fuel n chain p f h q (terminated qs) s m r b (c (terminated qs)) e k ∙ e2,
      st,
      last ∙ append_assoc chain (r ∷ []) rs,
      (reads, all),
    )

length-terminated : (qs : List Text) → length qs < suc (length (terminated qs))
length-terminated [] = omega arith
length-terminated (q ∷ qs) =
    omega (arith, length-terminated qs, length-append q (semicolon ∷ terminated qs))

-- Where malloc grants every request, a SQLite multi-read of statements joined by the driver, each
-- of which sqlite3 compiles from its text and steps to its end, succeeds within the rounds given,
-- and leaves as `last_result` one result for each statement, in order, whose accessors read at any
-- row and column the value that sqlite3 yielded there.
pub sqlite_execute_multi_read-Delivered :
    (compile : Compiler) (old : List SqliteResult) (qs : List Text) (ss : List Statement) (h : Heap)
    → Compiles compile 0 qs ss
    → ((k : ℕ) → h.grants k ≡ true)
    → (o : SqliteRan) × (sqlite_execute_multi_read compile old (sqlite_write [] qs) h ≡ ran o)
      × (o.status ≡ succeeded)
      × Delivered ss o.last_result
unfolding sqlite_execute_multi_read
sqlite_execute_multi_read-Delivered compile old qs ss h c g =
    let t = sqlite_write-terminated [] qs in
    let (o, rs, e, st, last, all) =
      Delivered-some compile old qs ss (suc (length (terminated qs))) 0 [] 0 0 h
        (length-terminated qs) c g in
    (o, rw t e, st, subst (Delivered ss) (sym last) all)
