-- ===== src/Examples/Mongo.antt =====
-- The MongoDB driver at concrete inputs.
use dart_db_connector.Base.{
  ◌+◌, ◌≡◌, ◌↔◌, refl, pos, true, false, none, some, List, [], ◌∷◌, arith, length,
}
use dart_db_connector.Heap.{Text, Gave}
use dart_db_connector.Handles.{mutex}
use dart_db_connector.Handles.Tally.{Tally, held}
use dart_db_connector.Mailbox.{Mail, starts, submits, started, submitted}
use dart_db_connector.Mailbox.Progress.{work, Served}
use dart_db_connector.Lifecycle.{Owned, connected}
use dart_db_connector.Lifecycle.Gives.{owned_conns}
use dart_db_connector.Mongo.Slot.{MongoConn, MongoPayload, MongoJob, Request, many_args}
use dart_db_connector.Mongo.Slot.Means.{
  finds, mongo_submit, asks_payload, Submits, mongo_submit-Submits, MongoRequest,
}
use dart_db_connector.Mongo.Execute.{
  Mongoc, MongoRan, succeeded, MongoStatus, options_of, execute_find, execute_insert_many,
  slice_docs, sliced, prefix_of,
}
use dart_db_connector.Mongo.Execute.Slices.{blob, AllDocuments, slice_docs-blob}
use dart_db_connector.Mongo.Execute.Delivers.{Found, execute_find-Found}
use dart_db_connector.Mongo.Execute.Inserts.{Replies, execute_insert_many-Inserts}
use dart_db_connector.Mongo.Worker.{MongoSubmission, mongo_mailbox, mongo_worker-serves}
use dart_db_connector.Mongo.Lifecycle.{
  mongo_fresh, mongo_managed, MongoAnswers, mongo_pool_create, mongo_pool_destroy, MongoLeaves, uri,
  client_pool, destroyed_of, made_of, mongo_pool_create-Leaves, mongo_pool_destroy-gives,
}
use dart_db_connector.Examples.Shared.{granting, select, begin}

-- The empty document, and one that only this model's libmongoc takes.
abbrev empty_doc : Text
empty_doc = 5 ∷ 0 ∷ 0 ∷ 0 ∷ 0 ∷ []

abbrev six_bytes : Text
six_bytes = 6 ∷ 0 ∷ 0 ∷ 0 ∷ 1 ∷ 0 ∷ []

-- A server that finds two documents and takes every write.
abbrev server : Mongoc
server = record {
  find = λ db coll filter opts. record { docs = empty_doc ∷ six_bytes ∷ []; error = none };
  write = λ op db coll d1 d2. record { error = none; reply = empty_doc };
  command = λ db d1. record { error = none; reply = empty_doc };
  insert_many = λ db coll docs ordered. record { error = none; reply = six_bytes };
  init_static = λ d. true;
}

abbrev shared : Request
shared = record { db = some begin; coll = some select; port_id = pos 77; timeout_ms = pos 0 }

abbrev finding : MongoRequest
finding = finds (some empty_doc) (pos 5) none (pos 0)

abbrev mongo_idle : MongoConn
mongo_idle = mongo_fresh 0

mongo_submit-Submits_example :
    Submits mongo_idle
      (asks_payload finding shared)
      granting
      (mongo_submit finding shared (some mongo_idle) granting)
mongo_submit-Submits_example = mongo_submit-Submits finding shared mongo_idle granting

execute_find-Found_example :
    let p = asks_payload finding shared in
    Found (server.find p.db p.coll p.doc1 (options_of p)) granting (execute_find server p granting)
execute_find-Found_example = execute_find-Found server (asks_payload finding shared) granting

abbrev two_docs : List Text
two_docs = empty_doc ∷ six_bytes ∷ []

two_docs-AllDocuments : AllDocuments (λ d. true) two_docs
unfolding prefix_of
two_docs-AllDocuments = ((refl, omega arith, refl), ((refl, omega arith, refl), tt))

slice_docs-blob_example :
    (slice_docs (λ d. true) 2 0 11 (blob two_docs) ≡ sliced two_docs)
    ↔ ((blob two_docs ≡ blob two_docs) × (length two_docs ≡ 2) × AllDocuments (λ d. true) two_docs)
slice_docs-blob_example = slice_docs-blob (λ d. true) 2 (blob two_docs) two_docs (omega arith)

abbrev inserting : MongoPayload
inserting = many_args shared (some (blob two_docs)) (pos 11) (pos 2) (pos 1)

execute_insert_many-Inserts_example :
    (o : MongoRan) × (execute_insert_many server [] inserting granting ≡ some o)
    × Replies [] (server.insert_many (some begin) (some select) two_docs true) granting o
execute_insert_many-Inserts_example =
    execute_insert_many-Inserts server [] inserting two_docs granting (omega arith)
      (refl, refl, refl, two_docs-AllDocuments)

abbrev asking : MongoSubmission
asking = record { request = finding; shared = shared }

abbrev finished : MongoRan
finished = record { status = succeeded; last_result = []; error = none; heap = granting }

abbrev mongo_asked : Mail MongoConn MongoJob MongoStatus
mongo_asked = submitted mongo_mailbox asking (started mongo_idle granting)

abbrev five_runs : List MongoRan
five_runs = finished ∷ finished ∷ finished ∷ finished ∷ finished ∷ []

mongo_worker-serves_example :
    ((work mongo_mailbox five_runs mongo_asked).accepted ≡ mongo_asked.accepted)
    × Served mongo_mailbox (work mongo_mailbox five_runs mongo_asked) mongo_asked.accepted
mongo_worker-serves_example =
    mongo_worker-serves mongo_idle granting mongo_asked five_runs refl refl
      (submits asking (started mongo_idle granting) starts) (omega arith)

-- The pool's condition variable is refused.
abbrev no_cond : MongoAnswers
no_cond = record {
  uri_ok = true;
  clients_ok = true;
  threads = record {
    mutex_ok = true;
    cond_ok = false;
    inits = λ n. record { opening = connected; mutex_ok = true; cond_ok = true; thread_ok = true };
  };
}

mongo_pool_create-Leaves_example :
    MongoLeaves mutex uri 2 false granting
      (mongo_pool_create (some begin) (pos 2) (pos 0) no_cond granting)
mongo_pool_create-Leaves_example =
    mongo_pool_create-Leaves (some begin) (pos 2) (pos 0) no_cond granting mutex uri

abbrev one_conn : Owned MongoConn
one_conn = record {
  strings = [];
  free_list = record {
    default_acquire_timeout_ms = pos 0;
    conns = mongo_idle ∷ [];
    shutting_down = false;
  };
}

mongo_pool_destroy-gives_example :
    let (h', es, os) = mongo_pool_destroy (some one_conn) granting in
    Gave (owned_conns mongo_managed (mongo_idle ∷ []) + 2) granting h'
    × Tally mutex 0 (held mutex 1) es
    × (destroyed_of client_pool os ≡ 1)
    × (made_of client_pool os ≡ 0)
mongo_pool_destroy-gives_example =
    mongo_pool_destroy-gives one_conn granting mutex client_pool (refl, tt) refl
