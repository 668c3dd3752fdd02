-- ===== src/Sqlite/Execute/Accounts.antt =====
-- What the execution paths leave on the heap, whatever it answers: a path that aborts has given back
-- every block, and one that succeeds has granted what `last_result` owns.
use dart_db_connector.Base.{
  ℕ, zero, suc, ◌+◌, ◌<◌, ◌≤◌, ◌≡◌, refl, sym, ◌∙◌, subst, Option, none, some, List, [], ◌∷◌, ◌++◌,
  arith, length, Bool-cases, inl, inr, ◌⊎◌,
}
use dart_db_connector.Heap.{Refused, Heap, Text, Grew}
use dart_db_connector.Sqlite.Results.{SqliteResult}
use dart_db_connector.Sqlite.Rows.{Statement, SqliteError, nomem, set_error}
use dart_db_connector.Sqlite.Materialize.{Made, materialize_stmt, native_sqlite_clear_result}
use dart_db_connector.Sqlite.Materialize.Freed.{Frees, Frees-trans, cost, clear_result-Frees}
use dart_db_connector.Sqlite.Materialize.Outcome.{
  IsStatement, Ending, Outcome, materialize_stmt-Outcome,
}
use dart_db_connector.Sqlite.Execute.{
  succeeded, aborted, Prepared, rejected, blank, compiled, SqliteRan, keep_made, run_made,
  null_statement, sqlite_pool_execute_query, is_separator, skip_separators,
  sqlite_free_result_chain, Compiler, ReadRun, ReadLoop, read_at, read_result, read_made,
  read_answer, exhausted, crashed, ran, drop_chain, read_statements, sqlite_execute_multi_read,
}

abbrev pub chain_cost : List SqliteResult → ℕ
chain_cost [] = 0
chain_cost (r ∷ rs) = cost r + chain_cost rs

pub free_result_chain-Frees :
    (rs : List SqliteResult) (h : Heap) → Frees (chain_cost rs) h (sqlite_free_result_chain rs h)
unfolding sqlite_free_result_chain
free_result_chain-Frees [] h = record { frees = omega arith; allocs = refl; grants = refl }
free_result_chain-Frees (r ∷ rs) h =
    Frees-trans (cost r) (chain_cost rs) (clear_result-Frees r h)
      (free_result_chain-Frees rs (native_sqlite_clear_result (some r) h))

chain_cost-append :
    (xs ys : List SqliteResult) → chain_cost (xs ++ ys) ≡ chain_cost xs + chain_cost ys
chain_cost-append [] ys = omega arith
chain_cost-append (x ∷ xs) ys = omega (arith, chain_cost-append xs ys)

-- What sqlite3 documents: a statement is one, and pzTail lies beyond it.
pub record IsCompiler (compile : Compiler) : Type 0 where
  pub statement : (n : ℕ) (t : Text) (s : Statement) → (compile n t).0 ≡ compiled s → IsStatement s
  pub advances : (n c : ℕ) (t : Text) → length (compile n (c ∷ t)).1 < length (c ∷ t)

-- The error of an aborted path: one that sqlite3 reports, or out of memory.
abbrev pub Settled : List SqliteResult → Heap → SqliteRan → Type 0
Settled old h0 o =
    (o.prepared ≡ o.finalized)
    × (o.heap.grants ≡ h0.grants)
    × (((o.status ≡ succeeded)
          × (o.error ≡ none)
          × Grew 0 h0 (sqlite_free_result_chain o.last_result o.heap))
        ⊎ ((o.status ≡ aborted)
            × (o.last_result ≡ old)
            × ((e : SqliteError) × (o.error ≡ some e))
            × Grew 0 h0 o.heap))

-- How a multi-read ends: not for want of rounds, and by a crash only where a request was refused.
abbrev pub Account : List SqliteResult → Heap → ReadRun → Type 0
Account old h0 exhausted = ⊥
Account old h0 crashed = Refused h0.grants
Account old h0 (ran o) = Settled old h0 o

length-skip : (t : Text) → length (skip_separators t) ≤ length t
unfolding skip_separators
length-skip [] = omega arith
length-skip (c ∷ t) = elim (Bool-cases (is_separator c)) [
  | inl e ↦ rw e (omega (arith, length-skip t))
  | inr e ↦ rw e (omega arith)
]

module _ (compile : Compiler) (old : List SqliteResult) (h0 : Heap) where
  dropped :
      (chain : List SqliteResult) (e : SqliteError) (p : ℕ) (h : Heap)
      → h.grants ≡ h0.grants
      → Grew (chain_cost chain) h0 h
      → Account old h0 (drop_chain old chain (some e) p p h)
  dropped chain e p h g t =
      let f = free_result_chain-Frees chain h in
      (refl, f.grants ∙ g, inr (refl, refl, (e, refl), omega (arith, f.frees, f.allocs, t)))

  finished :
      (chain : List SqliteResult) (p : ℕ) (h : Heap)
      → h.grants ≡ h0.grants
      → Grew (chain_cost chain) h0 h
      → Account old h0 (
          ran (record {
            status = succeeded;
            last_result = chain;
            error = none;
            prepared = p;
            finalized = p;
            heap = h;
          }))
  finished chain p h g t =
      let f = free_result_chain-Frees chain h in
      (refl, g, inl (refl, refl, omega (arith, f.frees, f.allocs, t)))

  -- The rest of the loop accounts for its chain.
  abbrev AccountsFor : ReadLoop → Type 0
  AccountsFor rest =
      (chain : List SqliteResult) (p : ℕ) (h : Heap)
      → h.grants ≡ h0.grants
      → Grew (chain_cost chain) h0 h
      → Account old h0 (rest chain p p h)

  module _ (chain : List SqliteResult) (p : ℕ) (h : Heap) (g : h.grants ≡ h0.grants)
      (t : Grew (chain_cost chain) h0 h) (rest : ReadLoop) (a : AccountsFor rest) where
    read_result-Account :
        (s : Statement) (res : Option SqliteResult) (err : Option SqliteError) (h' : Heap)
        → h'.grants ≡ h.grants
        → Ending h s res err h'
        → Account old h0 (read_result old chain (suc p) (suc p) err h' rest res)
    read_result-Account s none err h' g' (inl (d, q), b) =
        subst (λ e. Account old h0 (drop_chain old chain e (suc p) (suc p) h')) (sym q)
          (dropped chain (set_error s.report) (suc p) h' (g' ∙ g) (omega (arith, b, t)))
    read_result-Account s none err h' g' (inr (q, r), b) =
        subst (λ e. Account old h0 (drop_chain old chain e (suc p) (suc p) h')) (sym q)
          (dropped chain nomem (suc p) h' (g' ∙ g) (omega (arith, b, t)))
    read_result-Account s (some w) err h' g' (d, q, c, n, k, b) =
        let f = clear_result-Frees w h' in
        let l = chain_cost-append chain (w ∷ []) in
        a (chain ++ w ∷ []) (suc p) h' (g' ∙ g) (omega (arith, b, t, f.frees, f.allocs, l))

    read_made-Account :
        (s : Statement) (o : Option Made)
        → Outcome h s o
        → Account old h0 (read_made old chain p p rest o)
    read_made-Account s none r = subst Refused g r
    read_made-Account s (some m) (f, g', x) =
        subst
          (λ (k : ℕ). Account old h0 (read_result old chain (suc p) k m.error m.heap rest m.result))
          (omega (arith, f)) (read_result-Account s m.result m.error m.heap g' x)

    read_answer-Account :
        (answer : Prepared)
        → ((s : Statement) → answer ≡ compiled s → IsStatement s)
        → Account old h0 (read_answer old chain p p h rest answer)
    read_answer-Account (rejected e) v = dropped chain (set_error e) p h g t
    read_answer-Account (blank e) v = a chain p h g t
    read_answer-Account (compiled s) v =
        read_made-Account s (materialize_stmt s h) (materialize_stmt-Outcome s h (v s refl))

  module _ (v : IsCompiler compile) where
    read_at-Account :
        (again : Text → ReadLoop) (fuel n : ℕ) (u : Text)
        → ((next : Text) → length next < fuel → AccountsFor (again next))
        → length u < suc fuel
        → (chain : List SqliteResult) (p : ℕ) (h : Heap) → h.grants ≡ h0.grants
        → Grew (chain_cost chain) h0 h
        → Account old h0 (read_at compile old again n chain p p h u)
    read_at-Account again fuel n [] a l chain p h g b = finished chain p h g b
    read_at-Account again fuel n (c ∷ u) a l chain p h g b =
        let next = (compile n (c ∷ u)).1 in
        read_answer-Account chain p h g b (again next) (a next (omega (arith, l, v.advances n c u)))
          (compile n (c ∷ u)).0 (v.statement n (c ∷ u))

    read_statements-Account :
        (fuel n : ℕ) (t : Text)
        → length t < fuel
        → AccountsFor (read_statements compile old fuel n t)
    unfolding read_statements
    read_statements-Account zero n t l chain p h g b = elim l [ ]
    read_statements-Account (suc fuel) n t l chain p h g b =
        read_at-Account (read_statements compile old fuel (suc n)) fuel n (skip_separators t)
          (λ next k. read_statements-Account fuel (suc n) next k) (omega (arith, l, length-skip t))
          chain p h g b

-- A SQLite multi-read, whatever sqlite3 and malloc answer, ends within the rounds given, if a
-- statement that sqlite3 compiles is one and the rest of a text is shorter than the text. It
-- crashes only where a request was refused. Otherwise every statement prepared has been finalized,
-- and it succeeds, with no error and with results whose release gives back every block granted, or
-- it aborts, with an error set, `last_result` as it was and every block given back.
pub sqlite_execute_multi_read-Account :
    (compile : Compiler) (old : List SqliteResult) (sql : Text) (h : Heap)
    → IsCompiler compile
    → Account old h (sqlite_execute_multi_read compile old sql h)
unfolding sqlite_execute_multi_read
sqlite_execute_multi_read-Account compile old sql h v =
    read_statements-Account compile old h v (suc (length sql)) 0 sql (omega arith) [] 0 h refl
      (omega arith)

-- How a single statement ends.
abbrev pub Single : List SqliteResult → Heap → Option SqliteRan → Type 0
Single old h0 none = Refused h0.grants
Single old h0 (some o) = Settled old h0 o

made-Single :
    (old : List SqliteResult) (h0 : Heap) (s : Statement) (o : Option Made)
    → Outcome h0 s o
    → Single old h0 (run_made old o)
made-Single old h0 s none r = r
made-Single old h0 s (some m) (f, g, x) = go m.result m.error x
  where
    go :
        (res : Option SqliteResult) (err : Option SqliteError)
        → Ending h0 s res err m.heap
        → Settled old h0 (keep_made old (record m { result = res; error = err }))
    go none err (inl (d, q), b) = (sym f, g, inr (refl, refl, (set_error s.report, q), b))
    go none err (inr (q, r), b) = (sym f, g, inr (refl, refl, (nomem, q), b))
    go (some r) err (d, q, c, n, k, b) =
        (sym f, g, inl (refl, refl, unfold sqlite_free_result_chain in b))

null_statement-IsStatement : (e : SqliteError) → IsStatement (null_statement e)
null_statement-IsStatement e = record { wide = tt; columns = inr refl; names = refl }

-- A single SQLite statement, whatever sqlite3 and malloc answer, crashes only where a request was
-- refused. Otherwise the statement has been finalized if it was prepared, and the call succeeds,
-- with no error and with a result whose release gives back every block granted, or aborts, with an
-- error set, `last_result` as it was and every block given back.
pub sqlite_pool_execute_query-Single :
    (old : List SqliteResult) (p : Prepared) (h : Heap)
    → ((s : Statement) → p ≡ compiled s → IsStatement s)
    → Single old h (sqlite_pool_execute_query old p h)
unfolding sqlite_pool_execute_query
sqlite_pool_execute_query-Single old (rejected e) h v =
    (refl, refl, inr (refl, refl, (set_error e, refl), omega arith))
sqlite_pool_execute_query-Single old (blank e) h v =
    made-Single old h (null_statement e) (materialize_stmt (null_statement e) h)
      (materialize_stmt-Outcome (null_statement e) h (null_statement-IsStatement e))
sqlite_pool_execute_query-Single old (compiled s) h v =
    made-Single old h s (materialize_stmt s h) (materialize_stmt-Outcome s h (v s refl))
