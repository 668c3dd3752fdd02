-- ===== src/Mongo/Execute/Delivers.antt =====
-- What the execution paths hand over, and what they leave on the heap, wherever malloc fails.
use dart_db_connector.Base.{
  ◌≡◌, refl, sym, subst, ◌∙◌, ◌⊎◌, Option, none, some, List, [], ◌∷◌, ◌++◌, append-nil,
  append_assoc, arith, inl, inr, Option-cases,
}
use dart_db_connector.Heap.{Heap, Text, Grew, Refused}
use dart_db_connector.Mongo.Results.{
  MongoResult, wrapper, make_result, make_result-cases, mongo_free_result_chain, chain_blocks,
  chain_blocks-append, mongo_free_result_chain-Gave,
}
use dart_db_connector.Mongo.Slot.{MongoPayload, MongoError}
use dart_db_connector.Mongo.Execute.{
  MongoStatus, succeeded, aborted, mongo_set_error, MongoRan, Cursor, Reply, Mongoc, store_single,
  drain_cursor, end_find, options_of, execute_find, end_single,
}

-- The copies of some documents.
abbrev pub wrapped_docs : List Text → List MongoResult
wrapped_docs [] = []
wrapped_docs (d ∷ ds) = wrapper d ∷ wrapped_docs ds

abbrev Drained : List Text → List MongoResult → Heap → Option (List MongoResult) × Heap → Type 0
Drained docs chain h (none, h') = Grew 0 h h' × Refused h.grants
Drained docs chain h (some c, h') = (c ≡ chain ++ wrapped_docs docs) × Grew (chain_blocks c) h h'

drain_cursor-Drained :
    (h0 : Heap) (docs : List Text) (chain : List MongoResult) (h : Heap)
    → h.grants ≡ h0.grants
    → Grew (chain_blocks chain) h0 h
    → Drained docs chain h0 (drain_cursor docs chain h)
unfolding drain_cursor
drain_cursor-Drained h0 [] chain h s g = (sym (append-nil chain), g)
drain_cursor-Drained h0 (d ∷ docs) chain h s g =
    go (make_result d h) (make_result-cases d h)
      (λ h' s' g'. drain_cursor-Drained h0 docs (chain ++ wrapper d ∷ []) h' s' g')
  where
    next : List MongoResult
    next = chain ++ wrapper d ∷ []

    moved :
        (r : Option (List MongoResult) × Heap)
        → Drained docs next h0 r
        → Drained (d ∷ docs) chain h0 r
    moved (none, h') k = k
    moved (some c, h') (q, k) = (q ∙ append_assoc chain (wrapper d ∷ []) (wrapped_docs docs), k)

    go :
        (r : Option MongoResult × Heap)
        → (r.1.grants ≡ h.grants)
          × (((r.0 ≡ some (wrapper d)) × Grew 2 h r.1)
              ⊎ ((r.0 ≡ none) × Refused h.grants × Grew 0 h r.1))
        → ((h' : Heap)
            → h'.grants ≡ h0.grants
            → Grew (chain_blocks next) h0 h'
            → Drained docs next h0 (drain_cursor docs next h'))
        → Drained (d ∷ docs) chain h0 (elim r.0 [
          | none ↦ (none, mongo_free_result_chain chain r.1)
          | some w ↦ drain_cursor docs (chain ++ w ∷ []) r.1
        ])
    go (none, h') (s', inl (e, t)) more = cc
    go (none, h') (s', inr (e, f, t)) more =
        (omega (arith, g, t, mongo_free_result_chain-Gave chain h'), subst Refused s f)
    go (some w, h') (s', inr (e, f, t)) more = cc
    go (some w, h') (s', inl (e, t)) more =
        let q : chain ++ w ∷ [] ≡ next = cc in
        rw q (
          moved (drain_cursor docs next h')
            (more h' (s' ∙ s) (omega (arith, g, t, chain_blocks-append chain (wrapper d ∷ [])))))

-- How a find ends: with a copy of each document in order; with the cursor's error; or for want of
-- memory.
abbrev pub Found : Cursor → Heap → MongoRan → Type 0
Found cur h o =
    ((o.status ≡ succeeded)
      × (cur.error ≡ none)
      × (o.error ≡ none)
      × (o.last_result ≡ wrapped_docs cur.docs)
      × Grew (chain_blocks o.last_result) h o.heap)
    ⊎ ((o.status ≡ aborted)
        × (o.last_result ≡ [])
        × Grew 0 h o.heap
        × (((e : MongoError) × (cur.error ≡ some e) × (o.error ≡ some (mongo_set_error e)))
            ⊎ ((o.error ≡ none) × Refused h.grants)))

end_find-Found :
    (cur : Cursor) (h : Heap) (err : Option MongoError) (r : Option (List MongoResult) × Heap)
    → cur.error ≡ err
    → Drained cur.docs [] h r
    → Found cur h (end_find err r)
end_find-Found cur h err (none, h') q (k, f) = inr (refl, refl, k, inr (refl, f))
end_find-Found cur h none (some c, h') q (e, k) = inl (refl, q, refl, e, k)
end_find-Found cur h (some err) (some c, h') q (e, k) =
    inr (refl, refl, omega (arith, k, mongo_free_result_chain-Gave c h'), inl (err, q, refl))

-- A find, whatever the cursor yields and wherever malloc fails: it succeeds, with `last_result` the
-- copies of all documents of the cursor, in order, and their blocks taken; or it aborts, with no
-- result and every block given back, and then either sets the cursor's error, or sets none and a
-- request was refused.
pub execute_find-Found :
    (m : Mongoc) (p : MongoPayload) (h : Heap)
    → Found (m.find p.db p.coll p.doc1 (options_of p)) h (execute_find m p h)
unfolding execute_find
execute_find-Found m p h =
    let cur = m.find p.db p.coll p.doc1 (options_of p) in
    end_find-Found cur h cur.error (drain_cursor cur.docs [] h) refl
      (drain_cursor-Drained h cur.docs [] h refl (omega arith))

-- How a reply is kept: its copy, or nothing where a request was refused.
abbrev pub Kept : List MongoResult → Text → Heap → MongoStatus → List MongoResult → Heap → Type 0
Kept old reply h status chain h' =
    ((status ≡ succeeded) × (chain ≡ wrapper reply ∷ []) × Grew 2 h h')
    ⊎ ((status ≡ aborted) × (chain ≡ old) × Refused h.grants × Grew 0 h h')

pub store_single-Kept :
    (old : List MongoResult) (reply : Text) (h : Heap)
    → let (status, chain, h') = store_single old reply h in Kept old reply h status chain h'
unfolding store_single
store_single-Kept old reply h = elim (make_result-cases reply h).1 [
  | inl (e, t) ↦ rw (store_single, e) (inl (refl, refl, t))
  | inr (e, f, t) ↦ rw (store_single, e) (inr (refl, refl, f, t))
]

-- What libmongoc's error becomes.
abbrev pub set_from : Option MongoError → Option MongoError
set_from none = none
set_from (some e) = some (mongo_set_error e)

-- How a write or a command ends: with the reply where it went well, and otherwise with `last_result`
-- as it was.
abbrev pub Replied : List MongoResult → Reply → Heap → MongoRan → Type 0
Replied old r h o =
    (o.error ≡ set_from r.error)
    × (((o.status ≡ succeeded)
          × (r.error ≡ none)
          × (o.last_result ≡ wrapper r.reply ∷ [])
          × Grew 2 h o.heap)
        ⊎ ((o.status ≡ aborted)
            × (o.last_result ≡ old)
            × Grew 0 h o.heap
            × (((e : MongoError) × (r.error ≡ some e)) ⊎ Refused h.grants)))

pub end_single-Replied :
    (old : List MongoResult) (r : Reply) (h : Heap) → Replied old r h (end_single old r h)
end_single-Replied old r h = elim (Option-cases r.error) [
  | inr (e, q) ↦ rw q (refl, inr (refl, refl, omega arith, inl (e, refl)))
  | inl q ↦ elim (store_single-Kept old r.reply h) [
    | inl (s, c, g) ↦ rw q (refl, inl (s, refl, c, g))
    | inr (s, c, f, g) ↦ rw q (refl, inr (s, c, g, inr f))
  ]
]
