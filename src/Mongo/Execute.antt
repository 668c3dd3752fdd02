-- ===== src/Mongo/Execute.antt =====
-- The execution paths of packages/dart_db_connector/native/c/src/mongo_pool_worker.c. libmongoc is an
-- argument: what it answers to the calls that a path makes, on what the path passes.
pub mod Slices
pub mod Delivers
pub mod Inserts
use dart_db_connector.Base.{
  ℕ, zero, suc, ◌+◌, ◌*◌, ◌^◌, ℤ, pos, pos_part, is_positive, is_zero, Bool, true, false, not, ◌||◌,
  Option, none, some, List, [], ◌∷◌, ◌++◌, if◌then◌else◌, ltb, leb, ◌==◌, length, take, drop,
}
use dart_db_connector.Heap.{Heap, Text, malloc, free}
use dart_db_connector.Mongo.Results.{MongoResult, make_result, mongo_free_result_chain}
use dart_db_connector.Mongo.Slot.{
  MongoOp, no_op, find, insert_one, update_one, delete_one, command, insert_many, MongoPayload,
  MongoError, MongoJob, run_find, run_command, run_insert_many, run_write,
}

-- WORKER_PORT_OK and WORKER_PORT_ABORTED.
pub data MongoStatus : Type 0 where
  succeeded aborted : MongoStatus

-- `set_error` on what libmongoc reports: the message cut to the buffer.
unfoldable pub mongo_set_error : MongoError → MongoError
mongo_set_error e = record e { message = take 511 e.message }

-- `set_error(conn, NULL)`
abbrev pub unknown_error : MongoError
unknown_error = record {
  message =
      b'u' ∷ b'n' ∷ b'k' ∷ b'n' ∷ b'o' ∷ b'w' ∷ b'n' ∷ b' ' ∷ b'e' ∷ b'r' ∷ b'r' ∷ b'o' ∷ b'r' ∷ [];
  code = pos 0;
}

-- How a path ended: its status, `last_result`, the error that it has set, and the heap.
pub record MongoRan : Type 0 where
  pub status : MongoStatus
  pub last_result : List MongoResult
  pub error : Option MongoError
  pub heap : Heap

-- The documents that a cursor yields, and the error that it ends with, if any.
pub record Cursor : Type 0 where
  pub docs : List Text
  pub error : Option MongoError

-- What a write or a command comes back with: success, or the error; and the reply, in either case.
pub record Reply : Type 0 where
  pub error : Option MongoError
  pub reply : Text

-- libmongoc: `mongoc_collection_find_with_opts`, the three writes of one document, a command, a bulk
-- insert with its option "ordered", and whether bson_init_static takes the bytes for a document.
pub record Mongoc : Type 0 where
  pub find : Option Text → Option Text → Option Text → Option Text → Cursor
  pub write : MongoOp → Option Text → Option Text → Option Text → Option Text → Reply
  pub command : Option Text → Option Text → Reply
  pub insert_many : Option Text → Option Text → List Text → Bool → Reply
  pub init_static : Text → Bool

-- The status of the copy, and the chain.
unfoldable pub store_single : List MongoResult → Text → Heap → MongoStatus × List MongoResult × Heap
store_single old reply h =
    let (w, h') = make_result reply h in
    elim w [ none ↦ (aborted, old, h') | some r ↦ (succeeded, r ∷ [], h') ]

-- `while (mongoc_cursor_next(cur, &doc))`: the chain, or none where a copy was refused, and then the
-- chain is freed.
unfoldable pub drain_cursor : List Text → List MongoResult → Heap → Option (List MongoResult) × Heap
drain_cursor [] chain h = (some chain, h)
drain_cursor (doc ∷ docs) chain h =
    let (w, h') = make_result doc h in
    elim w [
      | none ↦ (none, mongo_free_result_chain chain h')
      | some r ↦ drain_cursor docs (chain ++ r ∷ []) h'
    ]

-- What is made of the drained cursor.
abbrev pub end_find : Option MongoError → Option (List MongoResult) × Heap → MongoRan
end_find err (none, h) = record { status = aborted; last_result = []; error = none; heap = h }
end_find none (some chain, h) = record {
  status = succeeded;
  last_result = chain;
  error = none;
  heap = h;
}
end_find (some e) (some chain, h) = record {
  status = aborted;
  last_result = [];
  error = some (mongo_set_error e);
  heap = mongo_free_result_chain chain h;
}

-- `doc2` where it is not NULL and its length is positive.
abbrev pub options_of : MongoPayload → Option Text
options_of p = if is_positive p.doc2_len then p.doc2 else none

unfoldable pub execute_find : Mongoc → MongoPayload → Heap → MongoRan
execute_find m p h =
    let cur = m.find p.db p.coll p.doc1 (options_of p) in
    end_find cur.error (drain_cursor cur.docs [] h)

-- `!ok`, or the reply is stored.
abbrev pub end_single : List MongoResult → Reply → Heap → MongoRan
end_single old r h = elim r.error [
  | some e ↦ record {
    status = aborted;
    last_result = old;
    error = some (mongo_set_error e);
    heap = h;
  }
  | none ↦
      let (status, chain, h') = store_single old r.reply h in
      record { status = status; last_result = chain; error = none; heap = h' }
]

-- `doc2` goes to libmongoc in an update only.
abbrev pub second_of : MongoPayload → Option Text
second_of p = elim p.op [
  | no_op ↦ none
  | find ↦ none
  | insert_one ↦ none
  | update_one ↦ p.doc2
  | delete_one ↦ none
  | command ↦ none
  | insert_many ↦ none
]

-- `old` is `last_result` before.
unfoldable pub execute_write : Mongoc → List MongoResult → MongoPayload → Heap → MongoRan
unfolding store_single
execute_write m old p h = end_single old (m.write p.op p.db p.coll p.doc1 (second_of p)) h

unfoldable pub execute_command : Mongoc → List MongoResult → MongoPayload → Heap → MongoRan
unfolding store_single
execute_command m old p h = end_single old (m.command p.db p.doc1) h

-- Four bytes as a number, the lowest first; an int32_t is negative from 2^31 on.
unfoldable pub prefix_of : Text → Option ℕ
prefix_of (a ∷ b ∷ c ∷ d ∷ rest) = some (a + 256 * b + 65536 * c + 16777216 * d)
prefix_of _ = none

-- How the slicing ends: with a sum that overflows an int32_t or a read beyond the bytes, with `valid`
-- unset or bytes left over, or with the documents.
pub data Sliced : Type 0 where
  undefined malformed : Sliced
  sliced : List Text → Sliced

abbrev pub with_slice : Text → Sliced → Sliced
with_slice d undefined = undefined
with_slice d malformed = malformed
with_slice d (sliced ds) = sliced (d ∷ ds)

abbrev pub too_large : ℕ → Bool
too_large n = leb (2 ^ 31) n

-- The document of the length that its prefix gives, at `off`; `next` is the slicing after it.
abbrev pub slice_at : (Text → Bool) → ℕ → ℕ → Text → ℕ → Sliced → Sliced
slice_at init off total rest len next =
    if too_large len || ltb len 5
    then malformed
    else if too_large (off + len)
    then undefined
    else if ltb total (off + len) || not (init (take len rest))
    then malformed
    else with_slice (take len rest) next

-- The loop over the documents, from the offset on; `rest` are the bytes from there.
unfoldable pub slice_docs : (Text → Bool) → ℕ → ℕ → ℕ → Text → Sliced
slice_docs init zero off total rest = if off == total then sliced [] else malformed
slice_docs init (suc n) off total rest =
    if too_large (off + 4)
    then undefined
    else if ltb total (off + 4)
    then malformed
    else elim (prefix_of rest) [
      | none ↦ undefined
      | some len ↦
          slice_at init off total rest len (slice_docs init n (off + len) total (drop len rest))
    ]

-- "insert_many: malformed BSON blob (doc_count/length mismatch)"
abbrev pub malformed_blob : MongoError
malformed_blob = record {
  message =
      b'i' ∷ b'n' ∷ b's' ∷ b'e' ∷ b'r' ∷ b't' ∷ b'_' ∷ b'm' ∷ b'a' ∷ b'n' ∷ b'y' ∷ b':' ∷ b' '
      ∷ b'm' ∷ b'a' ∷ b'l' ∷ b'f' ∷ b'o' ∷ b'r' ∷ b'm' ∷ b'e' ∷ b'd' ∷ b' ' ∷ b'B' ∷ b'S' ∷ b'O'
      ∷ b'N' ∷ b' ' ∷ b'b' ∷ b'l' ∷ b'o' ∷ b'b' ∷ b' ' ∷ b'(' ∷ b'd' ∷ b'o' ∷ b'c' ∷ b'_' ∷ b'c'
      ∷ b'o' ∷ b'u' ∷ b'n' ∷ b't' ∷ b'/' ∷ b'l' ∷ b'e' ∷ b'n' ∷ b'g' ∷ b't' ∷ b'h' ∷ b' ' ∷ b'm'
      ∷ b'i' ∷ b's' ∷ b'm' ∷ b'a' ∷ b't' ∷ b'c' ∷ b'h' ∷ b')' ∷ [];
  code = pos 0;
}

-- A pointer that is not NULL where the request was granted.
abbrev pub pointer : Bool → Option {0} Unit
pointer true = some tt
pointer false = none

abbrev pub free_both : Bool → Bool → Heap → Heap
free_both docs ptrs h = free (pointer ptrs) (free (pointer docs) h)

-- How a bulk insert ends, with its error, and what the copy of its reply has come to.
abbrev pub many_ran : Option MongoError → MongoStatus → List MongoResult → Heap → MongoRan
many_ran none status chain h = record {
  status = status;
  last_result = chain;
  error = none;
  heap = free_both true true h;
}
many_ran (some e) status chain h = record {
  status = aborted;
  last_result = chain;
  error = some (mongo_set_error e);
  heap = free_both true true h;
}

abbrev pub end_many : List MongoResult → Reply → Heap → MongoRan
end_many old r h =
    let (status, chain, h') = store_single old r.reply h in many_ran r.error status chain h'

abbrev pub refused_many : List MongoResult → MongoError → Heap → MongoRan
refused_many old e h = record { status = aborted; last_result = old; error = some e; heap = h }

-- With both arrays granted.
unfoldable pub insert_sliced :
    Mongoc → List MongoResult → MongoPayload → Sliced → Heap → Option MongoRan
unfolding store_single free
insert_sliced m old p undefined h = none
insert_sliced m old p malformed h = some (refused_many old malformed_blob (free_both true true h))
insert_sliced m old p (sliced ds) h =
    some (end_many old (m.insert_many p.db p.coll ds (not (is_zero p.bulk_ordered))) h)

abbrev pub bytes_of : Option Text → Text
bytes_of none = []
bytes_of (some b) = b

-- `none` where the code overflows an int32_t, or reads beyond the bytes.
unfoldable pub execute_insert_many :
    Mongoc → List MongoResult → MongoPayload → Heap → Option MongoRan
unfolding malloc free
execute_insert_many m old p h =
    let (docs, h1) = malloc h in
    let (ptrs, h2) = malloc h1 in
    if not docs || not ptrs
    then some (refused_many old unknown_error (free_both docs ptrs h2))
    else insert_sliced m old p
        (slice_docs m.init_static (pos_part p.doc_count) 0 (pos_part p.doc1_len) (bytes_of p.doc1))
        h2

-- The path of a job.
unfoldable pub run_job : Mongoc → List MongoResult → MongoJob → Heap → Option MongoRan
run_job m old (run_find p) h = some (execute_find m p h)
run_job m old (run_command p) h = some (execute_command m old p h)
run_job m old (run_insert_many p) h = execute_insert_many m old p h
run_job m old (run_write p) h = some (execute_write m old p h)
