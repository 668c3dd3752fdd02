-- ===== src/Mysql/Worker.antt =====
-- `mysql_pool_worker_main` of packages/dart_db_connector/native/c/src/mysql_pool_worker.c as the
-- worker of a mailbox, with the submissions of mysql_pool.c.
use dart_db_connector.Base.{
  ℕ, ◌≤◌, ◌≡◌, refl, sym, ◌∙◌, ap, ℤ, pos_part, is_positive, Bool, true, false, ◌&&◌, Option, none,
  some, List, [], ◌∷◌, take, arith, Bool-cases, inl, inr, Option-cases, if◌then◌else◌, ◌==◌, length,
  somes,
}
use dart_db_connector.Heap.{Heap, Text, dup_string}
use dart_db_connector.Sql.{all_texts}
use dart_db_connector.Sql.Join.{joined}
use dart_db_connector.Mailbox.{Mailbox, Mail, worker_step, Reach}
use dart_db_connector.Mailbox.Progress.{work, Served, Reach-serves}
use dart_db_connector.Mysql.Execute.{MysqlStatus, succeeded, aborted, MysqlRan}
use dart_db_connector.Mysql.Slot.{
  MysqlConn, MysqlError, no_error, MysqlPayload, MysqlOutcome, mysql_pool_free_slot_payload,
  mysql_pool_submit_query, commit_joined, joined_stmts, mysql_pool_submit_batch,
  mysql_pool_submit_multi_read, MysqlJob, read_joined, run_joined, run_single, mysql_dispatch,
}
use dart_db_connector.Mysql.Slot.Means.{
  Filled, filled, query-Filled, batch-Filled, reads-Filled, query-dispatch, batch-dispatch,
  reads-dispatch,
}
use dart_db_connector.Mysql.Slot.Means.Requests.{
  empty_payload, MysqlRequest, query, batch, reads, mysql_submit, after, mysql_join_stmts-eq,
}

pub record Submission : Type 0 where
  pub request : MysqlRequest
  pub port_id : ℤ
  pub timeout_ms : ℤ

-- What mysql_errno and mysql_error report.
pub record Report : Type 0 where
  pub errno : ℕ
  pub message : Option Text

abbrev pub is_silent : Option Text → Bool
is_silent none = true
is_silent (some []) = true
is_silent (some (c ∷ t)) = false

abbrev pub text_of : Option Text → Text
text_of none = []
text_of (some t) = t

-- "query aborted with no MySQL error (native failure)"
abbrev pub native_failure : Text
native_failure =
    b'q' ∷ b'u' ∷ b'e' ∷ b'r' ∷ b'y' ∷ b' ' ∷ b'a' ∷ b'b' ∷ b'o' ∷ b'r' ∷ b't' ∷ b'e' ∷ b'd' ∷ b' '
    ∷ b'w' ∷ b'i' ∷ b't' ∷ b'h' ∷ b' ' ∷ b'n' ∷ b'o' ∷ b' ' ∷ b'M' ∷ b'y' ∷ b'S' ∷ b'Q' ∷ b'L'
    ∷ b' ' ∷ b'e' ∷ b'r' ∷ b'r' ∷ b'o' ∷ b'r' ∷ b' ' ∷ b'(' ∷ b'n' ∷ b'a' ∷ b't' ∷ b'i' ∷ b'v'
    ∷ b'e' ∷ b' ' ∷ b'f' ∷ b'a' ∷ b'i' ∷ b'l' ∷ b'u' ∷ b'r' ∷ b'e' ∷ b')' ∷ []

unfoldable pub mysql_capture_conn_error : Report → MysqlError
mysql_capture_conn_error r = record {
  errno = r.errno;
  message =
      if r.errno == 0 && is_silent r.message then native_failure else take 511 (text_of r.message);
}

-- An execution, and what libmysqlclient reports after it.
pub record MysqlRun : Type 0 where
  pub ran : MysqlRan
  pub report : Report

-- The error is cleared before the execution, and captured where it aborts.
abbrev pub error_after : MysqlRun → MysqlError
error_after r = elim r.ran.status [
  | succeeded ↦ no_error
  | aborted ↦ mysql_capture_conn_error r.report
]

abbrev pub mysql_keep : MysqlRun → MysqlConn → MysqlConn
mysql_keep r c = record c { last_result = r.ran.last_result; last_error = error_after r }

-- The statements counted, with ';' between them.
abbrev pub counted_joined : Option (List (Option Text)) → ℤ → Option Text
counted_joined none count = none
counted_joined (some l) count = some (joined (all_texts (take (pos_part count) l)))

abbrev pub asks_job : MysqlRequest → MysqlJob
asks_job (query sql) = run_single sql
asks_job (batch stmts count) = run_joined (counted_joined stmts count)
asks_job (reads stmts count) = read_joined (counted_joined stmts count)

abbrev pub submission : Submission → MysqlConn → Heap → Bool × MysqlConn × Heap
submission q c h =
    let o = mysql_submit c q.request q.port_id q.timeout_ms h in (o.accepted, after c o, o.heap)

all_texts-somes : (ts : List Text) → all_texts (somes ts) ≡ ts
unfolding all_texts
all_texts-somes [] = refl
all_texts-somes (t ∷ ts) = ap (λ l. t ∷ l) (all_texts-somes ts)

joined_stmts-eq :
    (l : List (Option Text)) (count : ℤ) (h : Heap) (t : Text)
    → (joined_stmts l count h).0 ≡ some t
    → some t ≡ counted_joined (some l) count
joined_stmts-eq l count h t e =
    let (ts, q, j) = mysql_join_stmts-eq (take (pos_part count) l) h t e in
    ap some (j ∙ ap joined (sym (ap all_texts q ∙ all_texts-somes ts)))

abbrev pub IsVacant : MysqlConn → Type 0
IsVacant c = c.payload ≡ empty_payload

-- What the slot holds after an accepted request.
abbrev pub Asked : MysqlRequest → MysqlConn → ℤ → MysqlConn → Type 0
Asked k c port_id c' =
    (c.slot_filled ≡ false)
    × (c.shutdown_requested ≡ false)
    × (c'.slot_filled ≡ true)
    × (c'.payload.port_id ≡ port_id)
    × (c'.shutdown_requested ≡ false)
    × (IsVacant c → mysql_dispatch c'.payload ≡ asks_job k)

Filled-Asked :
    (k : MysqlRequest) (c : MysqlConn) (p : MysqlPayload) (text : Option Text)
    (port_id timeout_ms : ℤ) (o : MysqlOutcome)
    → ((t : Text)
        → text ≡ some t
        → IsVacant c
        → mysql_dispatch (filled c p t port_id timeout_ms).payload ≡ asks_job k)
    → Filled c p text port_id timeout_ms o
    → Asked k c port_id (after c o)
Filled-Asked k c p text port_id timeout_ms o j (t, e, f, d, q) = (
  f,
  d,
  ap (λ x. x.slot_filled) q,
  ap (λ x. x.payload.port_id) q,
  ap (λ x. x.shutdown_requested) q ∙ d,
  λ v. ap (λ x. mysql_dispatch x.payload) q ∙ j t e v,
)

pub request-Asked :
    (k : MysqlRequest) (c : MysqlConn) (port_id timeout_ms : ℤ) (h : Heap)
    → let o = mysql_submit c k port_id timeout_ms h in
      o.accepted ≡ true → Asked k c port_id (after c o)
request-Asked (query sql) c port_id timeout_ms h e =
    Filled-Asked (query sql) c c.payload sql port_id timeout_ms
      (mysql_pool_submit_query (some c) sql port_id timeout_ms h)
      (λ t q v. query-dispatch c t port_id timeout_ms v ∙ ap run_single (sym q))
      (query-Filled c sql port_id timeout_ms h e)
request-Asked (batch none n) c port_id timeout_ms h e = unfold mysql_pool_submit_batch in cc
request-Asked (batch (some l) n) c port_id timeout_ms h e =
    Filled-Asked (batch (some l) n) c (record (c.payload) { is_batch = true })
      (joined_stmts l n h).0 port_id timeout_ms
      (mysql_pool_submit_batch (some c) (some l) n port_id timeout_ms h)
      (λ t q v. batch-dispatch c t port_id timeout_ms v ∙ ap run_joined (joined_stmts-eq l n h t q))
      (batch-Filled c l n port_id timeout_ms h e)
request-Asked (reads none n) c port_id timeout_ms h e = unfold mysql_pool_submit_multi_read in cc
request-Asked (reads (some l) n) c port_id timeout_ms h e =
    Filled-Asked (reads (some l) n) c (record (c.payload) { is_multi_read = true })
      (joined_stmts l n h).0 port_id timeout_ms
      (mysql_pool_submit_multi_read (some c) (some l) n port_id timeout_ms h)
      (λ t q v.
        reads-dispatch c t port_id timeout_ms v ∙ ap read_joined (joined_stmts-eq l n h t q))
      (reads-Filled c l n port_id timeout_ms h e)

commit-same :
    (c : MysqlConn) (p : MysqlPayload) (t : Option Text) (port_id timeout_ms : ℤ) (h : Heap)
    → let o = commit_joined c p t port_id timeout_ms h in o.accepted ≡ false → after c o ≡ c
unfolding commit_joined
commit-same c p none port_id timeout_ms h e = refl
commit-same c p (some t) port_id timeout_ms h e = ground arith

batch-same :
    (c : MysqlConn) (l : List (Option Text)) (n port_id timeout_ms : ℤ) (h : Heap)
    → let o = mysql_pool_submit_batch (some c) (some l) n port_id timeout_ms h in
      o.accepted ≡ false → after c o ≡ c
unfolding mysql_pool_submit_batch
batch-same c l n port_id timeout_ms h e = elim (Bool-cases (is_positive n)) [
  | inr p ↦ rw p refl
  | inl p ↦ rw p (
      commit-same c (record (c.payload) { is_batch = true }) (joined_stmts l n h).0 port_id
        timeout_ms (joined_stmts l n h).1 (ground arith))
]

reads-same :
    (c : MysqlConn) (l : List (Option Text)) (n port_id timeout_ms : ℤ) (h : Heap)
    → let o = mysql_pool_submit_multi_read (some c) (some l) n port_id timeout_ms h in
      o.accepted ≡ false → after c o ≡ c
unfolding mysql_pool_submit_multi_read
reads-same c l n port_id timeout_ms h e = elim (Bool-cases (is_positive n)) [
  | inr p ↦ rw p refl
  | inl p ↦ rw p (
      commit-same c (record (c.payload) { is_multi_read = true }) (joined_stmts l n h).0 port_id
        timeout_ms (joined_stmts l n h).1 (ground arith))
]

query-same :
    (c : MysqlConn) (t : Text) (port_id timeout_ms : ℤ) (h : Heap)
    → let o = mysql_pool_submit_query (some c) (some t) port_id timeout_ms h in
      o.accepted ≡ false → after c o ≡ c
unfolding mysql_pool_submit_query
query-same c t port_id timeout_ms h e = elim (Option-cases (dup_string (some t) h).0) [
  | inl d ↦ ground arith
  | inr (u, d) ↦ ground arith
]

request-same :
    (k : MysqlRequest) (c : MysqlConn) (port_id timeout_ms : ℤ) (h : Heap)
    → let o = mysql_submit c k port_id timeout_ms h in o.accepted ≡ false → after c o ≡ c
request-same (query none) c port_id timeout_ms h e = unfold mysql_pool_submit_query in refl
request-same (query (some t)) c port_id timeout_ms h e = query-same c t port_id timeout_ms h e
request-same (batch none n) c port_id timeout_ms h e = unfold mysql_pool_submit_batch in refl
request-same (batch (some l) n) c port_id timeout_ms h e = batch-same c l n port_id timeout_ms h e
request-same (reads none n) c port_id timeout_ms h e = unfold mysql_pool_submit_multi_read in refl
request-same (reads (some l) n) c port_id timeout_ms h e = reads-same c l n port_id timeout_ms h e

pub submission-refused :
    (q : Submission) (c : MysqlConn) (h : Heap)
    → (submission q c h).0 ≡ false
    → (submission q c h).1 ≡ c
submission-refused q c h e = request-same q.request c q.port_id q.timeout_ms h e

abbrev pub mysql_clear : MysqlConn → Heap → MysqlConn × Heap
mysql_clear c h =
    let (c', h') = mysql_pool_free_slot_payload c h in (record c' { slot_filled = false }, h')

pub clear-IsVacant :
    (c : MysqlConn) (h : Heap)
    → IsVacant (mysql_clear c h).0 × ((mysql_clear c h).0.shutdown_requested ≡ c.shutdown_requested)
unfolding mysql_pool_free_slot_payload
clear-IsVacant c h = (refl, refl)

-- The slot, the snapshot and the clearing of mysql_pool_worker_main.
abbrev pub mysql_mailbox : Mailbox MysqlConn MysqlJob MysqlRun Submission MysqlStatus
mysql_mailbox = record {
  slot_filled = λ c. c.slot_filled;
  shutdown_requested = λ c. c.shutdown_requested;
  port_id = λ c. c.payload.port_id;
  job = λ c. mysql_dispatch c.payload;
  status = λ r. r.ran.status;
  keep = mysql_keep;
  heap_after = λ r. r.ran.heap;
  clear = mysql_clear;
  shut = λ c. record c { shutdown_requested = true };
  submit = submission;
  port_of = λ q. q.port_id;
  asks = λ q. asks_job q.request;
  IsClear = IsVacant;
  keep-slot = λ r c. (refl, refl);
  clear-slot = λ c h. (refl, (clear-IsVacant c h).0, (clear-IsVacant c h).1);
  shut-slot = λ c. (refl, refl, refl, refl, λ v. v);
  submit-refused = submission-refused;
  submit-accepted = λ q c h v e.
      let (f, d, f', p, d', j) = request-Asked q.request c q.port_id q.timeout_ms h e in
      (f', p, j v, d');
  submit-free = λ q c h e.
      let (f, d, f', p, d', j) = request-Asked q.request c q.port_id q.timeout_ms h e in (f, d);
}

unfoldable pub mysql_worker_step :
    MysqlRun → Mail MysqlConn MysqlJob MysqlStatus → Mail MysqlConn MysqlJob MysqlStatus
mysql_worker_step = worker_step mysql_mailbox

-- From every state that the interleavings of a MySQL worker, submissions, the shutdown request and
-- calls that leave the slot alone reach from an empty slot, five or more further steps of the
-- worker accept nothing, and then every accepted request has run once, in order, as what it asks -
-- its text, or its statements with a ';' between them - and every run has been answered by one
-- post, in order, to its port with its status.
pub mysql_worker-serves :
    (c : MysqlConn) (h : Heap) (m : Mail MysqlConn MysqlJob MysqlStatus) (rs : List MysqlRun)
    → c.slot_filled ≡ false
    → IsVacant c
    → Reach mysql_mailbox c h m
    → 5 ≤ length rs
    → ((work mysql_mailbox rs m).accepted ≡ m.accepted)
      × Served mysql_mailbox (work mysql_mailbox rs m) m.accepted
mysql_worker-serves c h m rs = Reach-serves mysql_mailbox c h m rs
