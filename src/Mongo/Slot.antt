-- ===== src/Mongo/Slot.antt =====
-- `struct mongo_conn` of packages/dart_db_connector/native/c/src/mongo_pool_internal.h; the free
-- list, the submit functions and the polling of mongo_pool.c; and the snapshot of
-- mongo_pool_worker_main in mongo_pool_worker.c. `none` is NULL; the caller gives at least as many
-- bytes of a document as it counts.
pub mod Means
use dart_db_connector.Base.{
  ℕ, refl, ℤ, pos, pos_part, is_positive, Bool, true, false, not, ◌&&◌, ◌||◌, Option, none, some,
  List, [], ◌∷◌, take, if◌then◌else◌,
}
use dart_db_connector.Heap.{Heap, Text, malloc, free, dup_string}
use dart_db_connector.Clock.{Timespec}
use dart_db_connector.FreeList.{Lendable, Pool, Wake, Acquired, acquire, release}
use dart_db_connector.Mongo.Results.{MongoResult}

-- `enum mongo_op`, and the 0 of an empty slot.
pub data MongoOp : Type 0 where
  no_op find insert_one update_one delete_one command insert_many : MongoOp

-- The payload of a slot; as the arguments of `submit_op`, the caller's.
pub record MongoPayload : Type 0 where
  pub op : MongoOp
  pub db : Option Text
  pub coll : Option Text
  pub doc1 : Option Text
  pub doc1_len : ℤ
  pub doc2 : Option Text
  pub doc2_len : ℤ
  pub doc_count : ℤ
  pub bulk_ordered : ℤ
  pub port_id : ℤ
  pub timeout_ms : ℤ

-- `last_error` and `last_error_code`.
pub record MongoError : Type 0 where
  pub message : Text
  pub code : ℤ

-- `last_result` is the chain of results, in the order of their `next` links; a client is named by
-- the connection's index.
pub record MongoConn : Type 0 where
  pub client : Option ℕ
  pub index : ℕ
  pub in_use : Bool
  pub slot_filled : Bool
  pub payload : MongoPayload
  pub last_result : List MongoResult
  pub last_error : MongoError
  pub shutdown_requested : Bool

instance abbrev pub mongo_lendable : Lendable MongoConn
mongo_lendable = record {
  in_use = λ c. c.in_use;
  set_in_use = λ b c. record c { in_use = b };
  in_use-set = λ b c. refl;
}

unfoldable pub mongo_pool_acquire :
    Option (Pool MongoConn) → ℤ → Timespec → List (Wake MongoConn) → Option (Acquired MongoConn)
mongo_pool_acquire none timeout_ms now wakes = none
mongo_pool_acquire (some p) timeout_ms now wakes = some (acquire p timeout_ms now wakes)

unfoldable pub mongo_pool_release : Option (Pool MongoConn) → Option ℕ → Option (Pool MongoConn)
mongo_pool_release none conn = none
mongo_pool_release (some p) none = some p
mongo_pool_release (some p) (some i) = some (release p i)

abbrev pub mongo_empty : MongoPayload
mongo_empty = record {
  op = no_op;
  db = none;
  coll = none;
  doc1 = none;
  doc1_len = pos 0;
  doc2 = none;
  doc2_len = pos 0;
  doc_count = pos 0;
  bulk_ordered = pos 0;
  port_id = pos 0;
  timeout_ms = pos 0;
}

-- The four blocks of a payload, in the order of the calls.
abbrev pub free_copies : MongoPayload → Heap → Heap
free_copies p h = free p.doc2 (free p.doc1 (free p.coll (free p.db h)))

unfoldable pub mongo_pool_free_slot_payload : MongoConn → Heap → MongoConn × Heap
unfolding free
mongo_pool_free_slot_payload c h = (record c { payload = mongo_empty }, free_copies c.payload h)

unfoldable pub dup_bytes : Option Text → ℤ → Heap → Option Text × Heap
unfolding malloc
dup_bytes none len h = (none, h)
dup_bytes (some src) len h =
    if is_positive len
    then (let (ok, h') = malloc h in
        if ok then (some (take (pos_part len) src), h') else (none, h'))
    else (none, h)

-- The value returned (1 or 0), the connection and the heap afterwards.
pub record MongoOutcome : Type 0 where
  pub accepted : Bool
  pub conn : Option MongoConn
  pub heap : Heap

abbrev pub mongo_refuse : Option MongoConn → Heap → MongoOutcome
mongo_refuse c h = record { accepted = false; conn = c; heap = h }

abbrev pub given : {A : Type 0} → Option A → Bool
given none = false
given (some a) = true

-- `doc2_len = (d2 != NULL) ? doc2_len : 0`
abbrev pub length_kept : Option Text → ℤ → ℤ
length_kept d2 len = if given d2 then len else pos 0

-- The copies that `submit_op` has made, some of them refused: the payload to be filled in.
abbrev pub copied :
    MongoPayload → Option Text → Option Text → Option Text → Option Text → MongoPayload
copied a db coll d1 d2 = record a {
  db = db;
  coll = coll;
  doc1 = d1;
  doc2 = d2;
  doc2_len = length_kept d2 a.doc2_len;
}

-- The test after the copies; `a` are the arguments, `p` has the copies.
unfoldable pub lacks_copies : MongoPayload → MongoPayload → Bool
lacks_copies a p =
    not (given p.db)
    || not (given p.doc1)
    || (given a.coll && not (given p.coll))
    || (given a.doc2 && is_positive a.doc2_len && not (given p.doc2))

-- From that test on.
unfoldable pub commit_op : MongoConn → MongoPayload → MongoPayload → Heap → MongoOutcome
unfolding free
commit_op c a p h =
    if lacks_copies a p
    then mongo_refuse (some c) (free_copies p h)
    else if c.slot_filled || c.shutdown_requested
    then mongo_refuse (some c) (free_copies p h)
    else record {
      accepted = true;
      conn = some (record c { slot_filled = true; payload = p });
      heap = h;
    }

-- The four copies, and then the commit. No copy is asked for where the argument is NULL or empty.
unfoldable pub copy_op : MongoConn → MongoPayload → Heap → MongoOutcome
copy_op c a h =
    let (db, h1) = dup_string a.db h in
    let (coll, h2) = dup_string a.coll h1 in
    let (d1, h3) = dup_bytes a.doc1 a.doc1_len h2 in
    let (d2, h4) = dup_bytes a.doc2 a.doc2_len h3 in commit_op c a (copied a db coll d1 d2) h4

unfoldable pub submit_op : Option MongoConn → MongoPayload → Heap → MongoOutcome
submit_op none a h = mongo_refuse none h
submit_op (some c) a h =
    if not (given a.db) || not (given a.doc1) || not (is_positive a.doc1_len)
    then mongo_refuse (some c) h
    else copy_op c a h

-- The arguments that are the same for all requests; a document comes with its length.
pub record Request : Type 0 where
  pub db : Option Text
  pub coll : Option Text
  pub port_id : ℤ
  pub timeout_ms : ℤ

abbrev pub op_args : MongoOp → Request → Option Text → ℤ → Option Text → ℤ → MongoPayload
op_args op q doc1 doc1_len doc2 doc2_len = record {
  op = op;
  db = q.db;
  coll = q.coll;
  doc1 = doc1;
  doc1_len = doc1_len;
  doc2 = doc2;
  doc2_len = doc2_len;
  doc_count = pos 0;
  bulk_ordered = pos 0;
  port_id = q.port_id;
  timeout_ms = q.timeout_ms;
}

unfoldable pub mongo_pool_submit_find :
    Option MongoConn → Request → Option Text → ℤ → Option Text → ℤ → Heap → MongoOutcome
mongo_pool_submit_find c q filter filter_len opts opts_len h =
    submit_op c (op_args find q filter filter_len opts opts_len) h

unfoldable pub mongo_pool_submit_insert_one :
    Option MongoConn → Request → Option Text → ℤ → Heap → MongoOutcome
mongo_pool_submit_insert_one c q doc doc_len h =
    submit_op c (op_args insert_one q doc doc_len none (pos 0)) h

unfoldable pub mongo_pool_submit_update_one :
    Option MongoConn → Request → Option Text → ℤ → Option Text → ℤ → Heap → MongoOutcome
mongo_pool_submit_update_one c q selector selector_len update update_len h =
    submit_op c (op_args update_one q selector selector_len update update_len) h

unfoldable pub mongo_pool_submit_delete_one :
    Option MongoConn → Request → Option Text → ℤ → Heap → MongoOutcome
mongo_pool_submit_delete_one c q selector selector_len h =
    submit_op c (op_args delete_one q selector selector_len none (pos 0)) h

-- `q.coll` is not an argument of the call.
unfoldable pub mongo_pool_submit_command :
    Option MongoConn → Request → Option Text → ℤ → Heap → MongoOutcome
mongo_pool_submit_command c q doc doc_len h =
    submit_op c (record (op_args command q doc doc_len none (pos 0)) { coll = none }) h

abbrev pub many_args : Request → Option Text → ℤ → ℤ → ℤ → MongoPayload
many_args q docs total_len doc_count ordered =
    record (op_args insert_many q docs total_len none (pos 0)) {
      doc_count = doc_count;
      bulk_ordered = ordered;
    }

unfoldable pub mongo_pool_submit_insert_many :
    Option MongoConn → Request → Option Text → ℤ → ℤ → ℤ → Heap → MongoOutcome
mongo_pool_submit_insert_many c q docs total_len doc_count ordered h =
    if is_positive doc_count
    then submit_op c (many_args q docs total_len doc_count ordered) h
    else mongo_refuse c h

-- A call of `execute_find`, `execute_command`, `execute_insert_many` or `execute_write` by the
-- worker, which reads the payload in its slot.
pub data MongoJob : Type 0 where
  run_find run_command run_insert_many run_write : MongoPayload → MongoJob

unfoldable pub mongo_dispatch : MongoPayload → MongoJob
mongo_dispatch p = elim p.op [
  | no_op ↦ run_write p
  | find ↦ run_find p
  | insert_one ↦ run_write p
  | update_one ↦ run_write p
  | delete_one ↦ run_write p
  | command ↦ run_command p
  | insert_many ↦ run_insert_many p
]

-- The result handed over and the connection afterwards.
unfoldable pub native_mongo_poll_result : Option MongoConn → Option MongoResult × Option MongoConn
native_mongo_poll_result none = (none, none)
native_mongo_poll_result (some c) = elim c.last_result [
  | [] ↦ (none, some (record c { last_result = [] }))
  | r ∷ rs ↦ (some r, some (record c { last_result = rs }))
]

unfoldable pub native_mongo_last_error : Option MongoConn → Text
native_mongo_last_error none = []
native_mongo_last_error (some c) = c.last_error.message

unfoldable pub native_mongo_last_error_code : Option MongoConn → ℤ
native_mongo_last_error_code none = pos 0
native_mongo_last_error_code (some c) = c.last_error.code
