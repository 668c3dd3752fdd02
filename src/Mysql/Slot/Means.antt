-- ===== src/Mysql/Slot/Means.antt =====
-- What an accepted MySQL request makes the worker run, and what it takes from the heap.
pub mod Requests
use dart_db_connector.Base.{
  somes, length-somes, ℕ, suc, ◌+◌, ◌≡◌, refl, ap, ℤ, pos, pos_part, is_positive, true, false,
  Option, none, some, List, [], ◌∷◌, arith, take, length, Bool-cases, Option-cases, inl, inr, ◌⊎◌,
}
use dart_db_connector.Heap.{Heap, Text, Grew, owned_by, dup_string, dup_string-eq}
use dart_db_connector.Sql.{stmts_size, all_texts, mysql_join_stmts}
use dart_db_connector.Sql.Join.{joined, mysql_write-joined}
use dart_db_connector.Mysql.Slot.{
  MysqlPayload, MysqlConn, MysqlOutcome, mysql_pool_submit_query, commit_joined, joined_stmts,
  mysql_pool_submit_batch, mysql_pool_submit_multi_read, MysqlJob, read_joined, run_joined,
  run_single, mysql_dispatch,
}
use dart_db_connector.Mysql.Slot.Means.Requests.{
  empty_payload, IsClear, MysqlRequest, query, mysql_submit, after, Texts, Means, all_texts-eq,
  mysql_join_stmts-eq, mysql_join_stmts-Grew, batch, reads,
}

-- The connection with its slot filled.
abbrev pub filled : MysqlConn → MysqlPayload → Text → ℤ → ℤ → MysqlConn
filled c p t port_id timeout_ms = record c {
  slot_filled = true;
  payload = record p { sql = some t; port_id = port_id; timeout_ms = timeout_ms };
}

-- The call found the slot empty, and filled it with the payload and the text.
abbrev pub Filled : MysqlConn → MysqlPayload → Option Text → ℤ → ℤ → MysqlOutcome → Type 0
Filled c p text port_id timeout_ms o =
    (t : Text) × (text ≡ some t)
    × (c.slot_filled ≡ false)
    × (c.shutdown_requested ≡ false)
    × (after c o ≡ filled c p t port_id timeout_ms)

pub query-Filled :
    (c : MysqlConn) (sql : Option Text) (port_id timeout_ms : ℤ) (h : Heap)
    → let o = mysql_pool_submit_query (some c) sql port_id timeout_ms h in
      o.accepted ≡ true → Filled c c.payload sql port_id timeout_ms o
unfolding mysql_pool_submit_query
query-Filled c none port_id timeout_ms h e = cc
query-Filled c (some t) port_id timeout_ms h e = elim (Option-cases (dup_string (some t) h).0) [
  | inl d ↦ ground arith
  | inr (u, d) ↦ (u, dup_string-eq (some t) h u d, ground arith, ground arith, ground arith)
]

pub joined-Filled :
    (c : MysqlConn) (p : MysqlPayload) (text : Option Text) (port_id timeout_ms : ℤ) (h : Heap)
    → let o = commit_joined c p text port_id timeout_ms h in
      o.accepted ≡ true → Filled c p text port_id timeout_ms o
unfolding commit_joined
joined-Filled c p none port_id timeout_ms h e = cc
joined-Filled c p (some t) port_id timeout_ms h e =
    (t, refl, ground arith, ground arith, ground arith)

pub batch-Filled :
    (c : MysqlConn) (l : List (Option Text)) (count port_id timeout_ms : ℤ) (h : Heap)
    → let o = mysql_pool_submit_batch (some c) (some l) count port_id timeout_ms h in
      o.accepted ≡ true
      → Filled c
          (record (c.payload) { is_batch = true })
          (joined_stmts l count h).0
          port_id
          timeout_ms
          o
unfolding mysql_pool_submit_batch
batch-Filled c l count port_id timeout_ms h e = elim (Bool-cases (is_positive count)) [
  | inr p ↦ ground arith
  | inl p ↦ rw p (
      joined-Filled c (record (c.payload) { is_batch = true }) (joined_stmts l count h).0 port_id
        timeout_ms (joined_stmts l count h).1 (ground arith))
]

pub reads-Filled :
    (c : MysqlConn) (l : List (Option Text)) (count port_id timeout_ms : ℤ) (h : Heap)
    → let o = mysql_pool_submit_multi_read (some c) (some l) count port_id timeout_ms h in
      o.accepted ≡ true
      → Filled c
          (record (c.payload) { is_multi_read = true })
          (joined_stmts l count h).0
          port_id
          timeout_ms
          o
unfolding mysql_pool_submit_multi_read
reads-Filled c l count port_id timeout_ms h e = elim (Bool-cases (is_positive count)) [
  | inr p ↦ ground arith
  | inl p ↦ rw p (
      joined-Filled c (record (c.payload) { is_multi_read = true }) (joined_stmts l count h).0
        port_id timeout_ms (joined_stmts l count h).1 (ground arith))
]

clear-payload : (c : MysqlConn) → IsClear c → c.slot_filled ≡ false → c.payload ≡ empty_payload
clear-payload c (inl f) e = cc
clear-payload c (inr p) e = p

module _ (c : MysqlConn) (t : Text) (port_id timeout_ms : ℤ) (k : c.payload ≡ empty_payload) where
  pub query-dispatch :
      mysql_dispatch (filled c c.payload t port_id timeout_ms).payload ≡ run_single (some t)
  unfolding mysql_dispatch
  query-dispatch = rw k refl

  pub batch-dispatch :
      mysql_dispatch
        (filled c (record (c.payload) { is_batch = true }) t port_id timeout_ms).payload
      ≡ run_joined (some t)
  unfolding mysql_dispatch
  batch-dispatch = rw k refl

  pub reads-dispatch :
      mysql_dispatch
        (filled c (record (c.payload) { is_multi_read = true }) t port_id timeout_ms).payload
      ≡ read_joined (some t)
  unfolding mysql_dispatch
  reads-dispatch = refl

-- An accepted MySQL request, submitted in any of the three ways to a connection whose empty slot
-- has the empty payload, found the slot empty and no shutdown requested, and leaves the slot filled
-- with its port; the call that the worker then chooses from the slot runs the statement, or the
-- statements, none of which was NULL, with a ';' between them.
pub mysql_submit-Means :
    (c : MysqlConn) (r : MysqlRequest) (port_id timeout_ms : ℤ) (h : Heap)
    → IsClear c
    → (mysql_submit c r port_id timeout_ms h).accepted ≡ true
    → let o = mysql_submit c r port_id timeout_ms h in
      (c.slot_filled ≡ false)
      × (c.shutdown_requested ≡ false)
      × ((after c o).slot_filled ≡ true)
      × Means r (mysql_dispatch (after c o).payload)
      × ((after c o).port_id ≡ port_id)
mysql_submit-Means c (query sql) port_id timeout_ms h v e =
    let (t, q, s, d, f) = query-Filled c sql port_id timeout_ms h e in
    rw (f, after)
      (s, d, refl, (t, q, query-dispatch c t port_id timeout_ms (clear-payload c v s)), refl)
mysql_submit-Means c (batch none count) port_id timeout_ms h v e =
    unfold mysql_pool_submit_batch in cc
mysql_submit-Means c (batch (some l) count) port_id timeout_ms h v e =
    let (t, q, s, d, f) = batch-Filled c l count port_id timeout_ms h e in
    let (ts, w, j) = mysql_join_stmts-eq (take (pos_part count) l) h t q in
    rw (f, after, j)
      (
        s,
        d,
        refl,
        (ts, (l, refl, w), batch-dispatch c (joined ts) port_id timeout_ms (clear-payload c v s)),
        refl,
      )
mysql_submit-Means c (reads none count) port_id timeout_ms h v e =
    unfold mysql_pool_submit_multi_read in cc
mysql_submit-Means c (reads (some l) count) port_id timeout_ms h v e =
    let (t, q, s, d, f) = reads-Filled c l count port_id timeout_ms h e in
    let (ts, w, j) = mysql_join_stmts-eq (take (pos_part count) l) h t q in
    rw (f, after, j)
      (
        s,
        d,
        refl,
        (ts, (l, refl, w), reads-dispatch c (joined ts) port_id timeout_ms (clear-payload c v s)),
        refl,
      )
