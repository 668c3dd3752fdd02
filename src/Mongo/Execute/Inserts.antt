-- ===== src/Mongo/Execute/Inserts.antt =====
-- The bulk insert: the documents that reach libmongoc, and what is kept of its reply.
use dart_db_connector.Base.{
  ◌+◌, ◌^◌, ◌<◌, pos, length, ◌≡◌, refl, sym, subst, ◌∙◌, ◌⊎◌, pos_part, is_zero, not, Option, none,
  some, List, [], ◌∷◌, arith, inl, inr, ◌↔◌, Bool-cases,
}
use dart_db_connector.Heap.{Heap, Text, malloc, free, Grew, Refused}
use dart_db_connector.Mongo.Results.{MongoResult, wrapper}
use dart_db_connector.Mongo.Slot.{MongoPayload, MongoError}
use dart_db_connector.Mongo.Execute.Slices.{blob, AllDocuments, slice_docs-blob}
use dart_db_connector.Mongo.Execute.Delivers.{Kept, store_single-Kept, set_from}
use dart_db_connector.Mongo.Execute.{
  MongoStatus, succeeded, aborted, unknown_error, MongoRan, Reply, Mongoc, store_single, Sliced,
  undefined, malformed, sliced, slice_docs, malformed_blob, many_ran, insert_sliced, bytes_of,
  execute_insert_many,
}

-- What a bulk insert comes to, with its error and its reply, which is kept whether or not there is
-- an error.
abbrev pub Stored : List MongoResult → Option MongoError → Text → Heap → MongoRan → Type 0
Stored old err reply h o =
    (o.error ≡ set_from err)
    × (((o.last_result ≡ wrapper reply ∷ [])
          × ((o.status ≡ succeeded) ↔ (err ≡ none))
          × Grew 2 h o.heap)
        ⊎ ((o.status ≡ aborted) × (o.last_result ≡ old) × Refused h.grants × Grew 0 h o.heap))

many_ran-Stored :
    (old : List MongoResult) (reply : Text) (h0 h : Heap) (err : Option MongoError)
    (status : MongoStatus) (chain : List MongoResult) (h' : Heap)
    → h.grants ≡ h0.grants
    → Grew 2 h0 h
    → Kept old reply h status chain h'
    → Stored old err reply h0 (many_ran err status chain h')
unfolding free
many_ran-Stored old reply h0 h none status chain h' s g (inl (st, c, k)) =
    (refl, inl (c, (λ x. refl, λ x. st), omega (arith, g, k)))
many_ran-Stored old reply h0 h none status chain h' s g (inr (st, c, f, k)) =
    (refl, inr (st, c, subst Refused s f, omega (arith, g, k)))
many_ran-Stored old reply h0 h (some e) status chain h' s g (inl (st, c, k)) =
    (refl, inl (c, (λ x. cc, λ x. cc), omega (arith, g, k)))
many_ran-Stored old reply h0 h (some e) status chain h' s g (inr (st, c, f, k)) =
    (refl, inr (refl, c, subst Refused s f, omega (arith, g, k)))

-- How a bulk insert ends: for want of its two arrays; with a malformed blob; or with the reply to
-- the insertion of the documents that the blob was sliced into.
abbrev pub Inserted :
    Mongoc → List MongoResult → MongoPayload → Sliced → Heap → Option MongoRan → Type 0
Inserted m old p s h none = s ≡ undefined
Inserted m old p s h (some o) =
    ((o.status ≡ aborted)
      × (o.last_result ≡ old)
      × Grew 0 h o.heap
      × (((o.error ≡ some unknown_error) × Refused h.grants)
          ⊎ ((o.error ≡ some malformed_blob) × (s ≡ malformed))))
    ⊎ ((ds : List Text) × (s ≡ sliced ds)
        × (let r = m.insert_many p.db p.coll ds (not (is_zero p.bulk_ordered)) in
            Stored old r.error r.reply h o))

insert_sliced-Inserted :
    (m : Mongoc) (old : List MongoResult) (p : MongoPayload) (s : Sliced) (h0 h : Heap)
    → h.grants ≡ h0.grants
    → Grew 2 h0 h
    → Inserted m old p s h0 (insert_sliced m old p s h)
unfolding insert_sliced free
insert_sliced-Inserted m old p undefined h0 h e g = refl
insert_sliced-Inserted m old p malformed h0 h e g =
    inl (refl, refl, omega (arith, g), inr (refl, refl))
insert_sliced-Inserted m old p (sliced ds) h0 h e g =
    let r = m.insert_many p.db p.coll ds (not (is_zero p.bulk_ordered)) in
    let (status, chain, h') = store_single old r.reply h in
    inr (
      ds,
      refl,
      many_ran-Stored old r.reply h0 h r.error status chain h' e g
          (store_single-Kept old r.reply h),
    )

-- The slicing of a payload's documents.
abbrev pub slices : Mongoc → MongoPayload → Sliced
slices m p =
    slice_docs m.init_static (pos_part p.doc_count) 0 (pos_part p.doc1_len) (bytes_of p.doc1)

-- A bulk insert, whatever libmongoc answers and wherever malloc fails, is undefined only where the
-- slicing of its blob is. Otherwise it aborts, leaves `last_result` as it was and no block behind,
-- with an unknown error where a request was refused, or with the error of a malformed blob where the
-- slicing finds one; or it inserts the documents of the slicing, ordered where the flag is not 0, and
-- keeps a copy of the reply, with libmongoc's error if there is one, or aborts where that copy was
-- refused.
pub execute_insert_many-Inserted :
    (m : Mongoc) (old : List MongoResult) (p : MongoPayload) (h : Heap)
    → Inserted m old p (slices m p) h (execute_insert_many m old p h)
unfolding execute_insert_many malloc free
execute_insert_many-Inserted m old p h = elim (Bool-cases (h.grants h.calls)) [
  | inl e ↦ elim (Bool-cases (h.grants (h.calls + 1))) [
    | inl f ↦
        rw (e, f)
          (insert_sliced-Inserted m old p (slices m p) h
            (record h { calls = h.calls + 1 + 1; allocs = h.allocs + 1 + 1 }) refl (omega arith))
    | inr f ↦ rw (e, f) (inl (refl, refl, omega arith, inl (refl, (h.calls + 1, f))))
  ]
  | inr e ↦ elim (Bool-cases (h.grants (h.calls + 1))) [
    | inl f ↦ rw (e, f) (inl (refl, refl, omega arith, inl (refl, (h.calls, e))))
    | inr f ↦ rw (e, f) (inl (refl, refl, omega arith, inl (refl, (h.calls, e))))
  ]
]

-- The documents of a payload, concatenated and counted.
abbrev pub Holds : Mongoc → MongoPayload → List Text → Type 0
Holds m p ds =
    (p.doc1 ≡ some (blob ds))
    × (p.doc1_len ≡ pos (length (blob ds)))
    × (p.doc_count ≡ pos (length ds))
    × AllDocuments m.init_static ds

Holds-slices :
    (m : Mongoc) (p : MongoPayload) (ds : List Text)
    → length (blob ds) < 2 ^ 31
    → Holds m p ds
    → slices m p ≡ sliced ds
Holds-slices m p ds lt (d, l, n, a) =
    rw (d, l, n) ((slice_docs-blob m.init_static (length ds) (blob ds) ds lt).1 (refl, refl, a))

-- The reply kept and its error set; or the insert given up for want of memory.
abbrev pub Replies : List MongoResult → Reply → Heap → MongoRan → Type 0
Replies old r h o =
    ((o.status ≡ aborted) × (o.last_result ≡ old) × Refused h.grants × Grew 0 h o.heap)
    ⊎ ((o.error ≡ set_from r.error)
        × (o.last_result ≡ wrapper r.reply ∷ [])
        × ((o.status ≡ succeeded) ↔ (r.error ≡ none))
        × Grew 2 h o.heap)

Stored-Replies :
    (old : List MongoResult) (r : Reply) (h : Heap) (o : MongoRan)
    → Stored old r.error r.reply h o
    → Replies old r h o
Stored-Replies old r h o (y, inl (c, st, g)) = inr (y, c, st, g)
Stored-Replies old r h o (y, inr (st, c, f, g)) = inl (st, c, f, g)

-- A bulk insert of documents that were concatenated into a blob of fewer than 2^31 bytes, and
-- counted, inserts these documents, in order, and keeps a copy of the reply, with libmongoc's error
-- if there is one; unless malloc refused a request, and then it aborts and leaves `last_result` as
-- it was and no block behind.
pub execute_insert_many-Inserts :
    (m : Mongoc) (old : List MongoResult) (p : MongoPayload) (ds : List Text) (h : Heap)
    → length (blob ds) < 2 ^ 31
    → Holds m p ds
    → (o : MongoRan) × (execute_insert_many m old p h ≡ some o)
      × Replies old (m.insert_many p.db p.coll ds (not (is_zero p.bulk_ordered))) h o
execute_insert_many-Inserts m old p ds h lt k =
    go (execute_insert_many m old p h) refl (execute_insert_many-Inserted m old p h)
  where
    q : slices m p ≡ sliced ds
    q = Holds-slices m p ds lt k

    go :
        (r : Option MongoRan)
        → execute_insert_many m old p h ≡ r
        → Inserted m old p (slices m p) h r
        → (o : MongoRan) × (execute_insert_many m old p h ≡ some o)
          × Replies old (m.insert_many p.db p.coll ds (not (is_zero p.bulk_ordered))) h o
    go none e i = let x : undefined ≡ sliced ds = sym i ∙ q in cc
    go (some o) e (inl (st, c, g, inl (x, f))) = (o, e, inl (st, c, f, g))
    go (some o) e (inl (st, c, g, inr (x, f))) = let x : malformed ≡ sliced ds = sym f ∙ q in cc
    go (some o) e (inr (es, x, t)) =
        let x : sliced es ≡ sliced ds = sym x ∙ q in
        let same : es ≡ ds = cc in
        (
          o,
          e,
          subst (λ d. Replies old (m.insert_many p.db p.coll d (not (is_zero p.bulk_ordered))) h o)
              same
              (Stored-Replies old (m.insert_many p.db p.coll es (not (is_zero p.bulk_ordered))) h o
                t),
        )
