-- ===== src/Mongo/Slot/Means.antt =====
-- What an accepted MongoDB request puts into the slot, and what each call takes from the heap.
use dart_db_connector.Base.{
  ℕ, ◌+◌, ◌≡◌, refl, subst, ℤ, pos, pos_part, is_positive, true, false, not, ◌&&◌, ◌||◌, Option,
  none, some, take, arith, Bool-cases, inl, inr, ◌⊎◌, if◌then◌else◌,
}
use dart_db_connector.Heap.{
  Heap, Text, dup_string, dup_string-Grew, Grew, Gave, owned_by, malloc-cases, free-Gave, free,
}
use dart_db_connector.Mongo.Slot.{
  MongoPayload, MongoConn, MongoOutcome, dup_bytes, length_kept, copied, lacks_copies, given,
  free_copies, commit_op, copy_op, submit_op, find, insert_one, update_one, delete_one, command,
  insert_many, MongoOp, Request, op_args, many_args, MongoJob, run_find, run_command,
  run_insert_many, run_write, mongo_dispatch, mongo_pool_submit_find, mongo_pool_submit_insert_one,
  mongo_pool_submit_update_one, mongo_pool_submit_delete_one, mongo_pool_submit_command,
  mongo_pool_submit_insert_many,
}

-- The bytes counted, where there are any.
abbrev pub counted_bytes : Option Text → ℤ → Option Text
counted_bytes none len = none
counted_bytes (some src) len = if is_positive len then some (take (pos_part len) src) else none

-- What the arguments of a submission ask for.
abbrev pub meant : MongoPayload → MongoPayload
meant a = record a {
  doc1 = counted_bytes a.doc1 a.doc1_len;
  doc2 = counted_bytes a.doc2 a.doc2_len;
  doc2_len = length_kept (counted_bytes a.doc2 a.doc2_len) a.doc2_len;
}

abbrev pub owned_payload : MongoPayload → ℕ
owned_payload p = owned_by p.db + owned_by p.coll + owned_by p.doc1 + owned_by p.doc2

dup_bytes-Grew :
    (s : Option Text) (n : ℤ) (h : Heap) → let (c, h') = dup_bytes s n h in Grew (owned_by c) h h'
unfolding dup_bytes
dup_bytes-Grew none n h = omega arith
dup_bytes-Grew (some s) n h = elim (Bool-cases (is_positive n)) [
  | inr e ↦ rw e (omega arith)
  | inl e ↦ elim (malloc-cases h) [ inl (g, t) ↦ rw (e, g) t | inr (g, t) ↦ rw (e, g) t ]
]

-- A copy that is made is the bytes counted; one that is not made was not to be, or was refused.
dup_bytes-eq :
    (s : Option Text) (n : ℤ) (h : Heap)
    → (given s && is_positive n && not (given (dup_bytes s n h).0)) ≡ false
    → (dup_bytes s n h).0 ≡ counted_bytes s n
unfolding dup_bytes
dup_bytes-eq none n h e = refl
dup_bytes-eq (some s) n h e = ground arith

dup_string-made :
    (s : Option Text) (h : Heap)
    → (given s && not (given (dup_string s h).0)) ≡ false
    → (dup_string s h).0 ≡ s
unfolding dup_string
dup_string-made none h e = refl
dup_string-made (some s) h e = ground arith

pub free_copies-Gave : (p : MongoPayload) (h : Heap) → Gave (owned_payload p) h (free_copies p h)
free_copies-Gave p h =
    let h1 = free p.db h in
    let h2 = free p.coll h1 in
    let h3 = free p.doc1 h2 in
    omega (arith, free-Gave p.db h, free-Gave p.coll h1, free-Gave p.doc1 h2, free-Gave p.doc2 h3)

-- The call found the slot empty and no shutdown requested, and filled it with the payload.
abbrev pub Fills : MongoConn → MongoPayload → MongoOutcome → Type 0
Fills c p o =
    (c.slot_filled ≡ false)
    × (c.shutdown_requested ≡ false)
    × (o.conn ≡ some (record c { slot_filled = true; payload = p }))

commit_op-cases :
    (c : MongoConn) (a p : MongoPayload) (h : Heap)
    → let o = commit_op c a p h in
      ((o.accepted ≡ true) × (lacks_copies a p ≡ false) × Fills c p o × (o.heap ≡ h))
      ⊎ ((o.accepted ≡ false) × (o.conn ≡ some c) × (o.heap ≡ free_copies p h))
unfolding commit_op
commit_op-cases c a p h = elim (Bool-cases (lacks_copies a p)) [
  | inl e ↦ rw e (inr (refl, refl, refl))
  | inr e ↦ elim (Bool-cases (c.slot_filled || c.shutdown_requested)) [
    | inl f ↦ rw (e, f) (inr (refl, refl, refl))
    | inr f ↦ rw (e, f) (inl (refl, refl, (ground arith, ground arith, refl), refl))
  ]
]

-- Where no copy lacks, the copies are what the arguments ask for.
copied-eq :
    (a : MongoPayload) (h h1 h2 h3 : Heap)
    → let db = (dup_string a.db h).0 in
      let coll = (dup_string a.coll h1).0 in
      let d1 = (dup_bytes a.doc1 a.doc1_len h2).0 in
      let d2 = (dup_bytes a.doc2 a.doc2_len h3).0 in
      lacks_copies a (copied a db coll d1 d2) ≡ false → copied a db coll d1 d2 ≡ meant a
unfolding lacks_copies
copied-eq a h h1 h2 h3 e =
    let db = dup_string-made a.db h (ground arith) in
    let coll = dup_string-made a.coll h1 (ground arith) in
    let d1 = dup_bytes-eq a.doc1 a.doc1_len h2 (ground arith) in
    let d2 = dup_bytes-eq a.doc2 a.doc2_len h3 (ground arith) in rw (db, coll, d1, d2) refl

-- An accepted call fills the slot with what its arguments ask for, and the heap grows by what the
-- slot comes to own; a refused one changes neither.
abbrev pub Submits : MongoConn → MongoPayload → Heap → MongoOutcome → Type 0
Submits c p h o =
    ((o.accepted ≡ true) × Fills c p o × Grew (owned_payload p) h o.heap)
    ⊎ ((o.accepted ≡ false) × (o.conn ≡ some c) × Grew 0 h o.heap)

copy_op-Submits :
    (c : MongoConn) (a : MongoPayload) (h : Heap) → Submits c (meant a) h (copy_op c a h)
unfolding copy_op
copy_op-Submits c a h =
    let (db, h1) = dup_string a.db h in
    let (coll, h2) = dup_string a.coll h1 in
    let (d1, h3) = dup_bytes a.doc1 a.doc1_len h2 in
    let (d2, h4) = dup_bytes a.doc2 a.doc2_len h3 in
    let p = copied a db coll d1 d2 in
    let g1 = dup_string-Grew a.db h in
    let g2 = dup_string-Grew a.coll h1 in
    let g3 = dup_bytes-Grew a.doc1 a.doc1_len h2 in
    let g4 = dup_bytes-Grew a.doc2 a.doc2_len h3 in
    elim (commit_op-cases c a p h4) [
      | inl (e, l, f, k) ↦
          let q = copied-eq a h h1 h2 h3 l in
          inl (
            e,
            subst (λ x. Fills c x (commit_op c a p h4)) q f,
            subst (λ x. Grew (owned_payload x) h (commit_op c a p h4).heap) q
                (rw k (omega (arith, g1, g2, g3, g4))),
          )
      | inr (e, f, k) ↦ inr (e, f, rw k (omega (arith, g1, g2, g3, g4, free_copies-Gave p h4)))
    ]

pub submit_op-Submits :
    (c : MongoConn) (a : MongoPayload) (h : Heap) → Submits c (meant a) h (submit_op (some c) a h)
unfolding submit_op
submit_op-Submits c a h =
    elim (Bool-cases (not (given a.db) || not (given a.doc1) || not (is_positive a.doc1_len))) [
      | inl e ↦ rw e (inr (refl, refl, omega arith))
      | inr e ↦ rw e (copy_op-Submits c a h)
    ]

-- The six submissions, each with what all share.
pub data MongoRequest : Type 0 where
  finds updates : Option Text → ℤ → Option Text → ℤ → MongoRequest
  inserts deletes commands : Option Text → ℤ → MongoRequest
  inserts_many : Option Text → ℤ → ℤ → ℤ → MongoRequest

abbrev pub mongo_submit : MongoRequest → Request → Option MongoConn → Heap → MongoOutcome
mongo_submit (finds f n o m) q c h = mongo_pool_submit_find c q f n o m h
mongo_submit (updates s n u m) q c h = mongo_pool_submit_update_one c q s n u m h
mongo_submit (inserts d n) q c h = mongo_pool_submit_insert_one c q d n h
mongo_submit (deletes s n) q c h = mongo_pool_submit_delete_one c q s n h
mongo_submit (commands d n) q c h = mongo_pool_submit_command c q d n h
mongo_submit (inserts_many d n k o) q c h = mongo_pool_submit_insert_many c q d n k o h

-- A payload without a second document, and without a count.
abbrev plain : MongoOp → Request → Option Text → ℤ → Option Text → ℤ → MongoPayload
plain op q doc1 n doc2 m = record {
  op = op;
  db = q.db;
  coll = q.coll;
  doc1 = counted_bytes doc1 n;
  doc1_len = n;
  doc2 = counted_bytes doc2 m;
  doc2_len = length_kept (counted_bytes doc2 m) m;
  doc_count = pos 0;
  bulk_ordered = pos 0;
  port_id = q.port_id;
  timeout_ms = q.timeout_ms;
}

-- What the slot is to hold, and what the worker is to run on it.
abbrev pub asks_payload : MongoRequest → Request → MongoPayload
asks_payload (finds f n o m) q = plain find q f n o m
asks_payload (updates s n u m) q = plain update_one q s n u m
asks_payload (inserts d n) q = plain insert_one q d n none (pos 0)
asks_payload (deletes s n) q = plain delete_one q s n none (pos 0)
asks_payload (commands d n) q = record (plain command q d n none (pos 0)) { coll = none }
asks_payload (inserts_many d n k o) q = record (plain insert_many q d n none (pos 0)) {
  doc_count = k;
  bulk_ordered = o;
}

abbrev pub asks_run : MongoRequest → Request → MongoJob
asks_run (finds f n o m) q = run_find (asks_payload (finds f n o m) q)
asks_run (updates s n u m) q = run_write (asks_payload (updates s n u m) q)
asks_run (inserts d n) q = run_write (asks_payload (inserts d n) q)
asks_run (deletes s n) q = run_write (asks_payload (deletes s n) q)
asks_run (commands d n) q = run_command (asks_payload (commands d n) q)
asks_run (inserts_many d n k o) q = run_insert_many (asks_payload (inserts_many d n k o) q)

-- A MongoDB request, whatever it is and wherever malloc fails, submitted to a connection: either it
-- is accepted, has found the slot empty and no shutdown requested, has filled the slot with what it
-- asks for, each document cut to the bytes counted, and the heap has grown by exactly what the slot
-- owns; or it is refused, the connection is as it was, and every block taken is given back.
pub mongo_submit-Submits :
    (r : MongoRequest) (q : Request) (c : MongoConn) (h : Heap)
    → Submits c (asks_payload r q) h (mongo_submit r q (some c) h)
mongo_submit-Submits (finds f n o m) q c h =
    unfold mongo_pool_submit_find in (submit_op-Submits c (op_args find q f n o m) h)
mongo_submit-Submits (updates s n u m) q c h =
    unfold mongo_pool_submit_update_one in (submit_op-Submits c (op_args update_one q s n u m) h)
mongo_submit-Submits (inserts d n) q c h =
    unfold mongo_pool_submit_insert_one in
    (submit_op-Submits c (op_args insert_one q d n none (pos 0)) h)
mongo_submit-Submits (deletes s n) q c h =
    unfold mongo_pool_submit_delete_one in
    (submit_op-Submits c (op_args delete_one q s n none (pos 0)) h)
mongo_submit-Submits (commands d n) q c h =
    unfold mongo_pool_submit_command in
    (submit_op-Submits c (record (op_args command q d n none (pos 0)) { coll = none }) h)
mongo_submit-Submits (inserts_many d n k o) q c h =
    unfold mongo_pool_submit_insert_many in
    elim (Bool-cases (is_positive k)) [
      | inl e ↦ rw e (submit_op-Submits c (many_args q d n k o) h)
      | inr e ↦ rw e (inr (refl, refl, omega arith))
    ]

-- The worker runs on the slot what was asked for.
pub dispatch-asks :
    (r : MongoRequest) (q : Request) → mongo_dispatch (asks_payload r q) ≡ asks_run r q
unfolding mongo_dispatch
dispatch-asks (finds f n o m) q = refl
dispatch-asks (updates s n u m) q = refl
dispatch-asks (inserts d n) q = refl
dispatch-asks (deletes s n) q = refl
dispatch-asks (commands d n) q = refl
dispatch-asks (inserts_many d n k o) q = refl
