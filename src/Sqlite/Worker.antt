-- ===== src/Sqlite/Worker.antt =====
-- `sqlite_pool_worker_main` of packages/dart_db_connector/native/c/src/sqlite_pool_worker.c as the
-- worker of a mailbox, with the submissions of sqlite_pool.c.
pub mod Serves
use dart_db_connector.Base.{
  ℕ, ◌≡◌, refl, sym, ◌∙◌, ap, ℤ, pos_part, is_positive, Bool, true, false, Option, none, some, List,
  [], ◌∷◌, take, arith, Bool-cases, inl, inr, ◌⊎◌, Option-cases,
}
use dart_db_connector.Heap.{Heap, Text, dup_string, dup_string-eq}
use dart_db_connector.Sql.{stmts_size, all_texts, sqlite_join_stmts, sqlite_write}
use dart_db_connector.Sql.Join.{terminated, sqlite_write-terminated}
use dart_db_connector.Mailbox.{Mailbox, Mail, worker_step}
use dart_db_connector.Sqlite.Execute.{SqliteStatus, SqliteRan}
use dart_db_connector.Sqlite.Slot.{
  SqliteConn, SqlitePayload, sqlite_empty, SqliteOutcome, sqlite_pool_free_slot_payload,
  sqlite_commit, sqlite_pool_submit_query, submit_joined, sqlite_pool_submit_batch,
  sqlite_pool_submit_multi_read, SqliteJob, read_joined, run_joined, run_single, sqlite_dispatch,
  sqlite_keep,
}

-- The submissions, each with its port and its timeout.
pub data Call : Type 0 where
  query : Option Text → Call
  batch reads : Option (List (Option Text)) → ℤ → Call

pub record Submission : Type 0 where
  pub call : Call
  pub port_id : ℤ
  pub timeout_ms : ℤ

abbrev pub sqlite_call : Call → Option SqliteConn → ℤ → ℤ → Heap → SqliteOutcome
sqlite_call (query sql) c = sqlite_pool_submit_query c sql
sqlite_call (batch stmts count) c = sqlite_pool_submit_batch c stmts count
sqlite_call (reads stmts count) c = sqlite_pool_submit_multi_read c stmts count

abbrev pub conn_after : SqliteConn → SqliteOutcome → SqliteConn
conn_after c o = elim o.conn [ none ↦ c | some c' ↦ c' ]

-- The statements counted, each ended by ';'.
abbrev pub counted_text : Option (List (Option Text)) → ℤ → Option Text
counted_text none count = none
counted_text (some l) count = some (terminated (all_texts (take (pos_part count) l)))

-- What a submission asks the worker to run.
abbrev pub asks_job : Call → SqliteJob
asks_job (query sql) = run_single sql
asks_job (batch stmts count) = run_joined (counted_text stmts count)
asks_job (reads stmts count) = read_joined (counted_text stmts count)

abbrev pub sqlite_submit : Submission → SqliteConn → Heap → Bool × SqliteConn × Heap
sqlite_submit q c h =
    let o = sqlite_call q.call (some c) q.port_id q.timeout_ms h in
    (o.accepted, conn_after c o, o.heap)

-- The call found the slot empty and no shutdown requested, and filled it with the payload and the
-- text.
abbrev Filled : SqliteConn → SqlitePayload → Option Text → ℤ → ℤ → SqliteOutcome → Type 0
Filled c p text port_id timeout_ms o =
    (t : Text) × (text ≡ some t)
    × (c.slot_filled ≡ false)
    × (c.shutdown_requested ≡ false)
    × (conn_after c o ≡ record c {
      slot_filled = true;
      payload = record p { sql = some t; port_id = port_id; timeout_ms = timeout_ms };
    })

commit-Filled :
    (c : SqliteConn) (p : SqlitePayload) (text : Option Text) (port_id timeout_ms : ℤ) (h : Heap)
    → let o = sqlite_commit c p text port_id timeout_ms h in
      o.accepted ≡ true → Filled c p text port_id timeout_ms o
unfolding sqlite_commit
commit-Filled c p none port_id timeout_ms h e = cc
commit-Filled c p (some t) port_id timeout_ms h e =
    (t, refl, ground arith, ground arith, ground arith)

commit-refused :
    (c : SqliteConn) (p : SqlitePayload) (text : Option Text) (port_id timeout_ms : ℤ) (h : Heap)
    → let o = sqlite_commit c p text port_id timeout_ms h in o.accepted ≡ false → conn_after c o ≡ c
unfolding sqlite_commit
commit-refused c p none port_id timeout_ms h e = refl
commit-refused c p (some t) port_id timeout_ms h e = ground arith

join_stmts-eq :
    (qs : List (Option Text)) (h : Heap) (t : Text)
    → (sqlite_join_stmts qs h).0 ≡ some t
    → t ≡ terminated (all_texts qs)
unfolding sqlite_join_stmts
join_stmts-eq qs h t e = ground (arith, sqlite_write-terminated [] (all_texts qs))

query-Filled :
    (c : SqliteConn) (sql : Option Text) (port_id timeout_ms : ℤ) (h : Heap)
    → let o = sqlite_pool_submit_query (some c) sql port_id timeout_ms h in
      o.accepted ≡ true → Filled c c.payload sql port_id timeout_ms o
unfolding sqlite_pool_submit_query
query-Filled c none port_id timeout_ms h e = cc
query-Filled c (some t) port_id timeout_ms h e =
    let (copy, h') = dup_string (some t) h in
    let (u, q, f, d, r) = commit-Filled c c.payload copy port_id timeout_ms h' e in
    (u, dup_string-eq (some t) h u q, f, d, r)

joined-Filled :
    (c : SqliteConn) (l : List (Option Text)) (count : ℤ) (is_batch is_multi_read : Bool)
    (port_id timeout_ms : ℤ) (h : Heap)
    → let o = submit_joined (some c) (some l) count is_batch is_multi_read port_id timeout_ms h in
      o.accepted ≡ true
      → Filled c
          (record (c.payload) { is_batch = is_batch; is_multi_read = is_multi_read })
          (counted_text (some l) count)
          port_id
          timeout_ms
          o
unfolding submit_joined
joined-Filled c l count is_batch is_multi_read port_id timeout_ms h e =
    elim (Bool-cases (is_positive count)) [
      | inr p ↦ ground arith
      | inl p ↦
          let (joined, h') = sqlite_join_stmts (take (pos_part count) l) h in
          let p' = record (c.payload) { is_batch = is_batch; is_multi_read = is_multi_read } in
          let (t, q, f, d, r) = commit-Filled c p' joined port_id timeout_ms h' (ground arith) in
          rw p (t, ap some (sym (join_stmts-eq (take (pos_part count) l) h t q)), f, d, r)
    ]

joined-refused :
    (c : SqliteConn) (l : Option (List (Option Text))) (count : ℤ) (is_batch is_multi_read : Bool)
    (port_id timeout_ms : ℤ) (h : Heap)
    → let o = submit_joined (some c) l count is_batch is_multi_read port_id timeout_ms h in
      o.accepted ≡ false → conn_after c o ≡ c
unfolding submit_joined
joined-refused c none count is_batch is_multi_read port_id timeout_ms h e = refl
joined-refused c (some l) count is_batch is_multi_read port_id timeout_ms h e =
    elim (Bool-cases (is_positive count)) [
      | inr p ↦ rw p refl
      | inl p ↦
          let (joined, h') = sqlite_join_stmts (take (pos_part count) l) h in
          let p' = record (c.payload) { is_batch = is_batch; is_multi_read = is_multi_read } in
          rw p (commit-refused c p' joined port_id timeout_ms h' (ground arith))
    ]

pub call-refused :
    (q : Submission) (c : SqliteConn) (h : Heap)
    → (sqlite_submit q c h).0 ≡ false
    → (sqlite_submit q c h).1 ≡ c
call-refused q c h e = go q.call e
  where
    go :
        (k : Call)
        → (sqlite_call k (some c) q.port_id q.timeout_ms h).accepted ≡ false
        → conn_after c (sqlite_call k (some c) q.port_id q.timeout_ms h) ≡ c
    go (query none) e = unfold sqlite_pool_submit_query in refl
    go (query (some t)) e =
        unfold sqlite_pool_submit_query in
        (commit-refused c c.payload (dup_string (some t) h).0 q.port_id q.timeout_ms
          (dup_string (some t) h).1 e)
    go (batch l n) e =
        unfold sqlite_pool_submit_batch in
        (joined-refused c l n true false q.port_id q.timeout_ms h e)
    go (reads l n) e =
        unfold sqlite_pool_submit_multi_read in
        (joined-refused c l n false true q.port_id q.timeout_ms h e)

abbrev pub IsVacant : SqliteConn → Type 0
IsVacant c = c.payload ≡ sqlite_empty

-- What the slot holds after an accepted call.
abbrev pub Asked : Call → SqliteConn → ℤ → SqliteConn → Type 0
Asked k c port_id c' =
    (c.slot_filled ≡ false)
    × (c.shutdown_requested ≡ false)
    × (c'.slot_filled ≡ true)
    × (c'.payload.port_id ≡ port_id)
    × (c'.shutdown_requested ≡ false)
    × (IsVacant c → sqlite_dispatch c'.payload ≡ asks_job k)

Filled-Asked :
    (k : Call) (c : SqliteConn) (p : SqlitePayload) (text : Option Text) (port_id timeout_ms : ℤ)
    (o : SqliteOutcome)
    → Filled c p text port_id timeout_ms o
    → (IsVacant c
        → sqlite_dispatch (record p { sql = text; port_id = port_id; timeout_ms = timeout_ms })
          ≡ asks_job k)
    → Asked k c port_id (conn_after c o)
Filled-Asked k c p text port_id timeout_ms o (t, e, f, d, q) j = (
  f,
  d,
  ap (λ x. x.slot_filled) q,
  ap (λ x. x.payload.port_id) q,
  ap (λ x. x.shutdown_requested) q ∙ d,
  λ v.
      ap (λ x. sqlite_dispatch x.payload) q
      ∙ ap (λ s. sqlite_dispatch (record p { sql = s; port_id = port_id; timeout_ms = timeout_ms }))
          (sym e)
      ∙ j v,
)

pub call-Asked :
    (k : Call) (c : SqliteConn) (port_id timeout_ms : ℤ) (h : Heap)
    → let o = sqlite_call k (some c) port_id timeout_ms h in
      o.accepted ≡ true → Asked k c port_id (conn_after c o)
call-Asked (query sql) c port_id timeout_ms h e =
    Filled-Asked (query sql) c c.payload sql port_id timeout_ms
      (sqlite_pool_submit_query (some c) sql port_id timeout_ms h)
      (query-Filled c sql port_id timeout_ms h e) (λ v. unfold sqlite_dispatch in (rw v refl))
call-Asked (batch none n) c port_id timeout_ms h e =
    unfold sqlite_pool_submit_batch submit_joined in cc
call-Asked (batch (some l) n) c port_id timeout_ms h e =
    unfold sqlite_pool_submit_batch in
    (Filled-Asked (batch (some l) n) c
      (record (c.payload) { is_batch = true; is_multi_read = false }) (counted_text (some l) n)
      port_id timeout_ms (submit_joined (some c) (some l) n true false port_id timeout_ms h)
      (joined-Filled c l n true false port_id timeout_ms h e) (λ v. unfold sqlite_dispatch in refl))
call-Asked (reads none n) c port_id timeout_ms h e =
    unfold sqlite_pool_submit_multi_read submit_joined in cc
call-Asked (reads (some l) n) c port_id timeout_ms h e =
    unfold sqlite_pool_submit_multi_read in
    (Filled-Asked (reads (some l) n) c
      (record (c.payload) { is_batch = false; is_multi_read = true }) (counted_text (some l) n)
      port_id timeout_ms (submit_joined (some c) (some l) n false true port_id timeout_ms h)
      (joined-Filled c l n false true port_id timeout_ms h e) (λ v. unfold sqlite_dispatch in refl))

abbrev pub sqlite_clear : SqliteConn → Heap → SqliteConn × Heap
sqlite_clear c h =
    let (c', h') = sqlite_pool_free_slot_payload c h in (record c' { slot_filled = false }, h')

pub clear-IsVacant : (c : SqliteConn) (h : Heap) → IsVacant (sqlite_clear c h).0
unfolding sqlite_pool_free_slot_payload
clear-IsVacant c h = refl

pub clear-shutdown :
    (c : SqliteConn) (h : Heap) → (sqlite_clear c h).0.shutdown_requested ≡ c.shutdown_requested
unfolding sqlite_pool_free_slot_payload
clear-shutdown c h = refl

-- The slot, the snapshot and the clearing of sqlite_pool_worker_main.
abbrev pub sqlite_mailbox : Mailbox SqliteConn SqliteJob SqliteRan Submission SqliteStatus
sqlite_mailbox = record {
  slot_filled = λ c. c.slot_filled;
  shutdown_requested = λ c. c.shutdown_requested;
  port_id = λ c. c.payload.port_id;
  job = λ c. sqlite_dispatch c.payload;
  status = λ o. o.status;
  keep = sqlite_keep;
  heap_after = λ o. o.heap;
  clear = sqlite_clear;
  shut = λ c. record c { shutdown_requested = true };
  submit = sqlite_submit;
  port_of = λ q. q.port_id;
  asks = λ q. asks_job q.call;
  IsClear = IsVacant;
  keep-slot = λ o c. (refl, refl);
  clear-slot = λ c h. (refl, clear-IsVacant c h, clear-shutdown c h);
  shut-slot = λ c. (refl, refl, refl, refl, λ v. v);
  submit-refused = call-refused;
  submit-accepted = λ q c h v e.
      let (f, d, f', p, d', j) = call-Asked q.call c q.port_id q.timeout_ms h e in (f', p, j v, d');
  submit-free = λ q c h e.
      let (f, d, f', p, d', j) = call-Asked q.call c q.port_id q.timeout_ms h e in (f, d);
}

unfoldable pub sqlite_worker_step :
    SqliteRan → Mail SqliteConn SqliteJob SqliteStatus → Mail SqliteConn SqliteJob SqliteStatus
sqlite_worker_step = worker_step sqlite_mailbox
