-- ===== src/Postgres/Dispatch/Faithful/Copying.antt =====
-- What `pool_submit_query_params` of
-- packages/dart_db_connector/native/c/src/native_pool.c copies.
use dart_db_connector.Base.{
  ℕ, ◌≡◌, ◌∙◌, ℤ, pos_part, is_positive, true, false, Option, none, some, List, [], ◌∷◌, ◌++◌,
  append-nil, append_assoc, arith, take, replicate, inl, inr, Bool-cases, Option-cases,
}
use dart_db_connector.Heap.{Heap, Text, malloc}
use dart_db_connector.Postgres.SubmitParams.{
  Args, Copies, no_copies, value_bytes, first, rest, or_empty, copy_values, alloc_params,
  copy_params,
}

-- The value buffers that a parameterised request means: each value by its own format and length.
abbrev pub value_buffers : List (Option Text) → List ℤ → List ℤ → List (Option Text)
value_buffers [] fs ls = []
value_buffers (none ∷ vs) fs ls = none ∷ value_buffers vs (rest fs) (rest ls)
value_buffers (some v ∷ vs) fs ls =
    some (value_bytes (first fs) (first ls) v) ∷ value_buffers vs (rest fs) (rest ls)

abbrev pub expected_types : ℕ → Option (List ℕ) → List ℕ
expected_types n none = replicate n 0
expected_types n (some ts) = take n ts

-- The copies that a request's arguments stand for.
abbrev pub expected : Args → Copies
expected a =
    let n = pos_part a.n_params in
    let fs = take n (or_empty a.param_formats) in
    let ls = take n (or_empty a.param_lengths) in
    elim (is_positive a.n_params) [
      | true ↦ record {
        types = some (expected_types n a.param_types);
        values = some (value_buffers (take n (or_empty a.param_values)) fs ls);
        lengths = some ls;
        formats = some fs;
      }
      | false ↦ no_copies
    ]

pub copy_values-eq :
    (vs : List (Option Text)) (fs ls : List ℤ) (made : List (Option Text)) (h : Heap)
    (ws : List (Option Text))
    → (copy_values vs fs ls made h).0 ≡ some ws
    → ws ≡ made ++ value_buffers vs fs ls
unfolding copy_values
copy_values-eq [] fs ls made h ws e = ground (arith, append-nil made)
copy_values-eq (none ∷ vs) fs ls made h ws e =
    copy_values-eq vs (rest fs) (rest ls) (made ++ none ∷ []) h ws e
    ∙ append_assoc made (none ∷ []) (value_buffers vs (rest fs) (rest ls))
copy_values-eq (some v ∷ vs) fs ls made h ws e =
    let w = value_bytes (first fs) (first ls) v in
    ground (
      arith,
      copy_values-eq vs (rest fs) (rest ls) (made ++ some w ∷ []) (malloc h).1 ws,
      append_assoc made (some w ∷ []) (value_buffers vs (rest fs) (rest ls)),
    )

pub alloc_params-eq :
    (a : Args) (h : Heap) (k : Copies)
    → is_positive a.n_params ≡ true
    → (alloc_params a h).0 ≡ some k
    → k ≡ expected a
unfolding alloc_params
alloc_params-eq a h k p e =
    let h4 = (malloc (malloc (malloc (malloc h).1).1).1).1 in
    let n = pos_part a.n_params in
    let fs = take n (or_empty a.param_formats) in
    let ls = take n (or_empty a.param_lengths) in
    let vs = take n (or_empty a.param_values) in
    elim (Option-cases (copy_values vs fs ls [] h4).0) [
      | inl g ↦ ground arith
      | inr (ws, g) ↦ elim (Option-cases a.param_types) [
        | inl t ↦ ground (arith, copy_values-eq vs fs ls [] h4 ws g)
        | inr (ts, t) ↦ ground (arith, copy_values-eq vs fs ls [] h4 ws g)
      ]
    ]

pub copy_params-eq :
    (a : Args) (h : Heap) (k : Copies) → (copy_params a h).0 ≡ some k → k ≡ expected a
copy_params-eq a h k e = elim (Bool-cases (is_positive a.n_params)) [
  | inl p ↦ alloc_params-eq a h k p (ground arith)
  | inr p ↦ ground arith
]

-- An accepted `submit_locked` found the slot empty, and filled it with the statements.
