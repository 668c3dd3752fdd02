-- ===== src/Mongo/Results.antt =====
-- `struct native_mongo_result` of packages/dart_db_connector/native/c/src/mongo_pool_internal.h, its
-- accessors of native_mongo.c, and its allocation of mongo_pool_worker.c. A document is its bytes.
use dart_db_connector.Base.{
  ℕ, ◌+◌, ◌≡◌, refl, Option, none, some, List, [], ◌∷◌, ◌++◌, arith, if◌then◌else◌, length, ◌⊎◌,
  inl, inr, Bool-cases,
}
use dart_db_connector.Heap.{Heap, Text, malloc, free, Grew, Gave, Refused}

-- `bytes` is the field `data`.
pub record MongoResult : Type 0 where
  pub bytes : Text
  pub len : ℕ

unfoldable pub native_mongo_result_data : Option MongoResult → Option Text
native_mongo_result_data none = none
native_mongo_result_data (some r) = some r.bytes

unfoldable pub native_mongo_result_length : Option MongoResult → ℕ
native_mongo_result_length none = 0
native_mongo_result_length (some r) = r.len

unfoldable pub native_mongo_clear_result : Option MongoResult → Heap → Heap
unfolding free
native_mongo_clear_result none h = h
native_mongo_clear_result (some r) h = free (some r) (free (some r.bytes) h)

-- The wrapper around a copy of a document.
abbrev pub wrapper : Text → MongoResult
wrapper doc = record { bytes = doc; len = length doc }

-- With the wrapper granted, the copy.
abbrev pub copy_doc : Text → Heap → Option MongoResult × Heap
copy_doc doc h =
    let (ok, h') = malloc h in
    if ok then (some (wrapper doc), h') else (none, free {0} (some tt) h')

unfoldable pub make_result : Text → Heap → Option MongoResult × Heap
unfolding malloc free
make_result doc h = let (ok, h') = malloc h in if ok then copy_doc doc h' else (none, h')

-- `free_result_chain` of mongo_pool_worker.c, and the loop of `teardown_conn` of mongo_pool.c.
unfoldable pub mongo_free_result_chain : List MongoResult → Heap → Heap
unfolding free
mongo_free_result_chain [] h = h
mongo_free_result_chain (r ∷ rs) h =
    mongo_free_result_chain rs (free (some r) (free (some r.bytes) h))

-- The blocks of a chain.
abbrev pub chain_blocks : List MongoResult → ℕ
chain_blocks [] = 0
chain_blocks (r ∷ rs) = 2 + chain_blocks rs

pub chain_blocks-append :
    (rs qs : List MongoResult) → chain_blocks (rs ++ qs) ≡ chain_blocks rs + chain_blocks qs
chain_blocks-append [] qs = omega arith
chain_blocks-append (r ∷ rs) qs = omega (arith, chain_blocks-append rs qs)

pub mongo_free_result_chain-Gave :
    (rs : List MongoResult) (h : Heap) → Gave (chain_blocks rs) h (mongo_free_result_chain rs h)
unfolding mongo_free_result_chain
mongo_free_result_chain-Gave [] h = omega arith
mongo_free_result_chain-Gave (r ∷ rs) h =
    omega (arith, mongo_free_result_chain-Gave rs (record h { frees = h.frees + 1 + 1 }))

-- A wrapper around the document and two blocks, or none and no block, and a request refused.
pub make_result-cases :
    (doc : Text) (h : Heap)
    → let (w, h') = make_result doc h in
      (h'.grants ≡ h.grants)
      × (((w ≡ some (wrapper doc)) × Grew 2 h h') ⊎ ((w ≡ none) × Refused h.grants × Grew 0 h h'))
unfolding make_result
make_result-cases doc h = elim (Bool-cases (h.grants h.calls)) [
  | inr e ↦ rw e (refl, inr (refl, (h.calls, e), omega arith))
  | inl e ↦ elim (Bool-cases (h.grants (h.calls + 1))) [
    | inl f ↦ rw (e, f) (refl, inl (refl, omega arith))
    | inr f ↦ rw (e, f) (refl, inr (refl, (h.calls + 1, f), omega arith))
  ]
]
