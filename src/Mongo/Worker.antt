-- ===== src/Mongo/Worker.antt =====
-- `mongo_pool_worker_main` of packages/dart_db_connector/native/c/src/mongo_pool_worker.c as the
-- worker of a mailbox, with the submissions of mongo_pool.c.
use dart_db_connector.Base.{
  ◌≤◌, ◌≡◌, refl, ◌∙◌, ap, pos, Bool, true, false, Option, none, some, List, [], length, inl, inr,
}
use dart_db_connector.Heap.{Heap}
use dart_db_connector.Mailbox.{Mailbox, Mail, worker_step, Reach}
use dart_db_connector.Mailbox.Progress.{work, Served, Reach-serves}
use dart_db_connector.Mongo.Slot.{
  MongoConn, MongoError, MongoJob, mongo_empty, mongo_pool_free_slot_payload, Request,
  mongo_dispatch,
}
use dart_db_connector.Mongo.Slot.Means.{
  MongoRequest, finds, updates, inserts, deletes, commands, inserts_many, mongo_submit,
  asks_payload, asks_run, mongo_submit-Submits, dispatch-asks,
}
use dart_db_connector.Mongo.Execute.{MongoStatus, MongoRan}

-- A call of a submit function.
pub record MongoSubmission : Type 0 where
  pub request : MongoRequest
  pub shared : Request

abbrev pub conn_or : MongoConn → Option MongoConn → MongoConn
conn_or c none = c
conn_or c (some c') = c'

abbrev pub mongo_submission : MongoSubmission → MongoConn → Heap → Bool × MongoConn × Heap
mongo_submission q c h =
    let o = mongo_submit q.request q.shared (some c) h in (o.accepted, conn_or c o.conn, o.heap)

abbrev pub no_error : MongoError
no_error = record { message = []; code = pos 0 }

abbrev pub error_set : Option MongoError → MongoError
error_set none = no_error
error_set (some e) = e

-- The error is reset before the execution.
abbrev pub mongo_keep : MongoRan → MongoConn → MongoConn
mongo_keep o c = record c { last_result = o.last_result; last_error = error_set o.error }

abbrev pub mongo_clear : MongoConn → Heap → MongoConn × Heap
mongo_clear c h =
    let (c', h') = mongo_pool_free_slot_payload c h in (record c' { slot_filled = false }, h')

pub clear-lem :
    (c : MongoConn) (h : Heap)
    → let c' = (mongo_clear c h).0 in
      (c'.slot_filled ≡ false)
      × (c'.payload ≡ mongo_empty)
      × (c'.shutdown_requested ≡ c.shutdown_requested)
unfolding mongo_pool_free_slot_payload
clear-lem c h = (refl, refl, refl)

pub submission-refused :
    (q : MongoSubmission) (c : MongoConn) (h : Heap)
    → (mongo_submission q c h).0 ≡ false
    → (mongo_submission q c h).1 ≡ c
submission-refused q c h e = elim (mongo_submit-Submits q.request q.shared c h) [
  | inl (a, f, g) ↦ cc
  | inr (a, s, g) ↦ ap (conn_or c) s
]

pub submission-Fills :
    (q : MongoSubmission) (c : MongoConn) (h : Heap)
    → (mongo_submission q c h).0 ≡ true
    → (c.slot_filled ≡ false)
      × (c.shutdown_requested ≡ false)
      × ((mongo_submission q c h).1
          ≡ record c { slot_filled = true; payload = asks_payload q.request q.shared })
submission-Fills q c h e = elim (mongo_submit-Submits q.request q.shared c h) [
  | inl (a, (f, d, s), g) ↦ (f, d, ap (conn_or c) s)
  | inr (a, s, g) ↦ cc
]

pub port-asks : (r : MongoRequest) (q : Request) → (asks_payload r q).port_id ≡ q.port_id
port-asks (finds f n o m) q = refl
port-asks (updates s n u m) q = refl
port-asks (inserts d n) q = refl
port-asks (deletes s n) q = refl
port-asks (commands d n) q = refl
port-asks (inserts_many d n k o) q = refl

-- The slot, the snapshot and the clearing of mongo_pool_worker_main. An execution reads the payload
-- in the slot, which stays as it was at the snapshot, since submissions find the slot filled.
abbrev pub mongo_mailbox : Mailbox MongoConn MongoJob MongoRan MongoSubmission MongoStatus
mongo_mailbox = record {
  slot_filled = λ c. c.slot_filled;
  shutdown_requested = λ c. c.shutdown_requested;
  port_id = λ c. c.payload.port_id;
  job = λ c. mongo_dispatch c.payload;
  status = λ o. o.status;
  keep = mongo_keep;
  heap_after = λ o. o.heap;
  clear = mongo_clear;
  shut = λ c. record c { shutdown_requested = true };
  submit = mongo_submission;
  port_of = λ q. q.shared.port_id;
  asks = λ q. asks_run q.request q.shared;
  IsClear = λ c. c.payload ≡ mongo_empty;
  keep-slot = λ o c. (refl, refl);
  clear-slot = clear-lem;
  shut-slot = λ c. (refl, refl, refl, refl, λ v. v);
  submit-refused = submission-refused;
  submit-accepted = λ q c h v e.
      let (f, d, s) = submission-Fills q c h e in
      (
        ap (λ x. x.slot_filled) s,
        ap (λ x. x.payload.port_id) s ∙ port-asks q.request q.shared,
        ap (λ x. mongo_dispatch x.payload) s ∙ dispatch-asks q.request q.shared,
        ap (λ x. x.shutdown_requested) s ∙ d,
      );
  submit-free = λ q c h e. let (f, d, s) = submission-Fills q c h e in (f, d);
}

unfoldable pub mongo_worker_step :
    MongoRan → Mail MongoConn MongoJob MongoStatus → Mail MongoConn MongoJob MongoStatus
mongo_worker_step = worker_step mongo_mailbox

-- From every state that the interleavings of a MongoDB worker, submissions of the six requests, the
-- shutdown request and calls that leave the slot alone reach from an empty slot, five or more
-- further steps of the worker accept nothing, and then every accepted request has run once, in
-- order, as what it asks - its operation on its database, its collection and its documents - and
-- every run has been answered by one post, in order, to its port with its status.
pub mongo_worker-serves :
    (c : MongoConn) (h : Heap) (m : Mail MongoConn MongoJob MongoStatus) (rs : List MongoRan)
    → c.slot_filled ≡ false
    → c.payload ≡ mongo_empty
    → Reach mongo_mailbox c h m
    → 5 ≤ length rs
    → ((work mongo_mailbox rs m).accepted ≡ m.accepted)
      × Served mongo_mailbox (work mongo_mailbox rs m) m.accepted
mongo_worker-serves c h m rs = Reach-serves mongo_mailbox c h m rs
