-- ===== src/Mysql/Slot/Means/Requests.antt =====
-- The requests of packages/dart_db_connector/native/c/src/mysql_pool.c as one operation, what they
-- mean, and what `join_stmts` makes of their statements.
use dart_db_connector.Base.{
  somes, length-somes, ℕ, ◌+◌, ◌≡◌, refl, ap, ℤ, pos, pos_part, true, false, Option, none, some,
  List, [], ◌∷◌, arith, take, length, Option-cases, inl, inr, ◌⊎◌,
}
use dart_db_connector.Heap.{Heap, Text, Grew, owned_by}
use dart_db_connector.Sql.{stmts_size, all_texts, mysql_join_stmts}
use dart_db_connector.Sql.Join.{joined, mysql_write-joined}
use dart_db_connector.Mysql.Slot.{
  MysqlPayload, MysqlConn, MysqlOutcome, mysql_pool_submit_query, mysql_pool_submit_batch,
  mysql_pool_submit_multi_read, MysqlJob, read_joined, run_joined, run_single,
}

abbrev pub empty_payload : MysqlPayload
empty_payload = record {
  is_batch = false;
  is_multi_read = false;
  sql = none;
  port_id = pos 0;
  timeout_ms = pos 0;
}

-- An empty slot has the empty payload.
abbrev pub IsClear : MysqlConn → Type 0
IsClear c = (c.slot_filled ≡ true) ⊎ (c.payload ≡ empty_payload)

pub data MysqlRequest : Type 0 where
  query : Option Text → MysqlRequest
  batch reads : Option (List (Option Text)) → ℤ → MysqlRequest

abbrev pub mysql_submit : MysqlConn → MysqlRequest → ℤ → ℤ → Heap → MysqlOutcome
mysql_submit c (query sql) = mysql_pool_submit_query (some c) sql
mysql_submit c (batch stmts count) = mysql_pool_submit_batch (some c) stmts count
mysql_submit c (reads stmts count) = mysql_pool_submit_multi_read (some c) stmts count

abbrev pub after : MysqlConn → MysqlOutcome → MysqlConn
after c o = elim o.conn [ none ↦ c | some c' ↦ c' ]

-- The statements counted, none of which is NULL.
abbrev pub Texts : Option (List (Option Text)) → ℤ → List Text → Type 0
Texts stmts count ts =
    (l : List (Option Text)) × (stmts ≡ some l) × (take (pos_part count) l ≡ somes ts)

-- What a request asks the worker to run: its text, or its statements with ';' between them.
abbrev pub Means : MysqlRequest → MysqlJob → Type 0
Means (query sql) j = (t : Text) × (sql ≡ some t) × (j ≡ run_single (some t))
Means (batch stmts count) j =
    (ts : List Text) × Texts stmts count ts × (j ≡ run_joined (some (joined ts)))
Means (reads stmts count) j =
    (ts : List Text) × Texts stmts count ts × (j ≡ read_joined (some (joined ts)))

pub all_texts-eq :
    (total n : ℕ) (qs : List (Option Text))
    → stmts_size total qs ≡ some n
    → qs ≡ somes (all_texts qs)
unfolding stmts_size all_texts
all_texts-eq total n [] e = refl
all_texts-eq total n (none ∷ qs) e = cc
all_texts-eq total n (some q ∷ qs) e =
    ap (λ l. some q ∷ l) (all_texts-eq (total + length q + 1) n qs e)

pub mysql_join_stmts-eq :
    (qs : List (Option Text)) (h : Heap) (t : Text)
    → (mysql_join_stmts qs h).0 ≡ some t
    → (ts : List Text) × (qs ≡ somes ts) × (t ≡ joined ts)
unfolding mysql_join_stmts
mysql_join_stmts-eq qs h t e = elim (Option-cases (stmts_size 1 qs)) [
  | inl n ↦ ground arith
  | inr (total, n) ↦
      let ts = all_texts qs in
      let q = all_texts-eq 1 total qs n in
      (ts, q, ground (arith, mysql_write-joined [] ts, ap length q, length-somes ts))
]

pub mysql_join_stmts-Grew :
    (qs : List (Option Text)) (h : Heap)
    → let (t, h') = mysql_join_stmts qs h in Grew (owned_by t) h h'
unfolding mysql_join_stmts
mysql_join_stmts-Grew qs h = ground arith
