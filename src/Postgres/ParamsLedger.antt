-- ===== src/Postgres/ParamsLedger.antt =====
-- `pool_submit_query_params` leaks no block on any of its branches.
use dart_db_connector.Base.{
  ℕ, ◌+◌, ◌≡◌, ◌≤◌, refl, ℤ, pos_part, is_positive, true, false, Option, none, some, List, [], ◌∷◌,
  ◌++◌, arith, length, length-take, length-append, take, Bool-cases, Option-cases, inl, inr, ◌⊎◌,
}
use dart_db_connector.Heap.{
  Heap, Text, Grew, owned_by, malloc, dup_string, dup_string-Grew, dup_string-eq,
}
use dart_db_connector.Postgres.Conn.{Conn}
use dart_db_connector.Postgres.Submit.{Outcome}
use dart_db_connector.Postgres.SubmitParams.{
  Args, Copies, copy_values, alloc_params, copy_params, fill_params, commit_params,
  submit_query_params, lacks_arrays, value_bytes, first, rest, or_empty,
}
use dart_db_connector.Postgres.Ledger.{owned_values, count_values, Counts, IsValid, Accounts, after}
use dart_db_connector.Postgres.ClearSlot.{free_values-frees}

count_values-append :
    (vs ws : List (Option Text)) → count_values (vs ++ ws) ≡ count_values vs + count_values ws
count_values-append [] ws = omega arith
count_values-append (v ∷ vs) ws = omega (arith, count_values-append vs ws)

copy_values-Grew :
    (vs : List (Option Text)) (fs ls : List ℤ) (made : List (Option Text)) (h : Heap)
    → let (r, h') = copy_values vs fs ls made h in
      h'.allocs + h.frees + count_values made
      ≡ h.allocs + h'.frees + (elim r [ none ↦ 0 | some ws ↦ count_values ws ])
unfolding copy_values
copy_values-Grew [] fs ls made h = omega arith
copy_values-Grew (none ∷ vs) fs ls made h = ground (
  arith,
  copy_values-Grew vs (rest fs) (rest ls) (made ++ none ∷ []) h,
  count_values-append made (none ∷ []),
)
copy_values-Grew (some v ∷ vs) fs ls made h = elim (Bool-cases (malloc h).0) [
  | inl e ↦ ground (
    arith,
    copy_values-Grew vs (rest fs) (rest ls)
        (made ++ some (value_bytes (first fs) (first ls) v) ∷ []) (malloc h).1,
    count_values-append made (some (value_bytes (first fs) (first ls) v) ∷ []),
  )
  | inr e ↦ ground (arith, free_values-frees made (malloc h).1)
]

pub copy_values-length :
    (vs : List (Option Text)) (fs ls : List ℤ) (made : List (Option Text)) (h : Heap)
    (ws : List (Option Text))
    → (copy_values vs fs ls made h).0 ≡ some ws
    → length ws ≡ length made + length vs
unfolding copy_values
copy_values-length [] fs ls made h ws e = ground arith
copy_values-length (none ∷ vs) fs ls made h ws e = omega (
  arith,
  copy_values-length vs (rest fs) (rest ls) (made ++ none ∷ []) h ws e,
  length-append made (none ∷ []),
)
copy_values-length (some v ∷ vs) fs ls made h ws e = ground (
  arith,
  copy_values-length vs (rest fs) (rest ls)
      (made ++ some (value_bytes (first fs) (first ls) v) ∷ []) (malloc h).1 ws,
  length-append made (some (value_bytes (first fs) (first ls) v) ∷ []),
)

abbrev owned_copies : Option Copies → ℕ
owned_copies none = 0
owned_copies (some k) =
    owned_values k.values + owned_by k.types + owned_by k.lengths + owned_by k.formats

alloc_params-Grew :
    (a : Args) (h : Heap) → let (r, h') = alloc_params a h in Grew (owned_copies r) h h'
unfolding alloc_params
alloc_params-Grew a h =
    let h4 = (malloc (malloc (malloc (malloc h).1).1).1).1 in
    let n = pos_part a.n_params in
    ground (
      arith,
      copy_values-Grew (take n (or_empty a.param_values)) (take n (or_empty a.param_formats))
          (take n (or_empty a.param_lengths)) [] h4,
    )

copy_params-Grew :
    (a : Args) (h : Heap) → let (r, h') = copy_params a h in Grew (owned_copies r) h h'
copy_params-Grew a h = ground (arith, alloc_params-Grew a h)

-- A commit either refuses, with the heap as large as before, or hands the copies to the slot.
abbrev Committed : Conn → Text → Args → ℤ → ℤ → Heap → Outcome → Type 0
Committed c sql a port_id timeout_ms h o =
    ((o.conn ≡ some c) × (o.accepted ≡ false) × Grew 0 h o.heap)
    ⊎ ((k : Copies) × (g : Heap) × ((copy_params a g).0 ≡ some k)
        × (o.conn ≡ some (fill_params c sql a k port_id timeout_ms))
        × (o.accepted ≡ true)
        × Grew (2 + owned_copies (some k)) h o.heap)

pub commit_params-cases :
    (c : Conn) (sql : Text) (a : Args) (port_id timeout_ms : ℤ) (h : Heap)
    → Committed c sql a port_id timeout_ms h (commit_params c sql a port_id timeout_ms h)
unfolding commit_params
commit_params-cases c sql a port_id timeout_ms h =
    let h1 = (dup_string (some sql) h).1 in
    let h2 = (malloc h1).1 in
    elim (Option-cases (dup_string (some sql) h).0) [
      | inl e ↦ inl (ground arith, ground arith, ground (arith, dup_string-Grew (some sql) h))
      | inr (t, e) ↦ elim (Bool-cases (malloc h1).0) [
        | inr f ↦ inl (ground arith, ground arith, ground (arith, dup_string-Grew (some sql) h))
        | inl f ↦ elim (Option-cases (copy_params a h2).0) [
          | inl g ↦ inl (
            ground arith,
            ground arith,
            ground (arith, dup_string-Grew (some sql) h, copy_params-Grew a h2),
          )
          | inr (k, g) ↦ inr (
            k,
            h2,
            g,
            ground (arith, dup_string-eq (some sql) h t),
            ground arith,
            ground (arith, dup_string-Grew (some sql) h, copy_params-Grew a h2),
          )
        ]
      ]
    ]

-- The caller's array has the entries that it counts.
abbrev pub Enough {ℓ} : {A : Type ℓ} → ℤ → Option (List A) → Type 0
Enough n none = Unit
Enough n (some l) = pos_part n ≤ length l

alloc_params-counted :
    (a : Args) (h : Heap) (k : Copies) (vs : List (Option Text))
    → a.param_values ≡ some vs
    → pos_part a.n_params ≤ length vs
    → (alloc_params a h).0 ≡ some k
    → (ws : List (Option Text)) × (k.values ≡ some ws) × (length ws ≡ pos_part a.n_params)
unfolding alloc_params
alloc_params-counted a h k vs e n f =
    let h4 = (malloc (malloc (malloc (malloc h).1).1).1).1 in
    let m = pos_part a.n_params in
    let fs = take m (or_empty a.param_formats) in
    let ls = take m (or_empty a.param_lengths) in
    elim (Option-cases (copy_values (take m (or_empty a.param_values)) fs ls [] h4).0) [
      | inl g ↦ ground arith
      | inr (ws, g) ↦ (
        ws,
        ground arith,
        ground (
          arith,
          copy_values-length (take m (or_empty a.param_values)) fs ls [] h4 ws g,
          length-take m vs,
        ),
      )
    ]

copy_params-counted :
    (a : Args) (h : Heap) (k : Copies)
    → lacks_arrays a ≡ false
    → Enough a.n_params a.param_values
    → (copy_params a h).0 ≡ some k
    → Counts a.n_params k.values
copy_params-counted a h k l n f = elim (Bool-cases (is_positive a.n_params)) [
  | inr e ↦ ground arith
  | inl e ↦ elim (Option-cases a.param_values) [
    | inl g ↦ ground arith
    | inr (vs, g) ↦
        let (ws, p, q) = alloc_params-counted a h k vs g (rw g at n) (ground arith) in ground arith
  ]
]

commit_params-IsValid :
    (c : Conn) (sql : Text) (a : Args) (port_id timeout_ms : ℤ) (h : Heap)
    → IsValid c
    → lacks_arrays a ≡ false
    → Enough a.n_params a.param_values
    → IsValid (after c (commit_params c sql a port_id timeout_ms h))
commit_params-IsValid c sql a port_id timeout_ms h v l n =
    elim (commit_params-cases c sql a port_id timeout_ms h) [
      | inl (e, _, _) ↦ rw (e, after) v
      | inr (k, g, f, e, _, _) ↦
          rw (e, after)
            (record {
              cleared = λ p. cc;
              sql_counted = refl;
              values_counted = copy_params-counted a g k l n f;
            })
    ]

module _ (c : Conn) (sql : Option Text) (a : Args) (port_id timeout_ms : ℤ) (h : Heap)
    (v : IsValid c) where
  pub submit_query_params-Accounts :
      let o = submit_query_params (some c) sql a port_id timeout_ms h in
      Accounts c h (after c o) o.heap
  unfolding submit_query_params
  submit_query_params-Accounts = elim (Option-cases sql) [
    | inl e ↦ ground arith
    | inr (t, e) ↦ rw e (ground (arith, commit_params-cases c t a port_id timeout_ms h))
  ]

  pub submit_query_params-IsValid :
      Enough a.n_params a.param_values
      → IsValid (after c (submit_query_params (some c) sql a port_id timeout_ms h))
  unfolding submit_query_params
  submit_query_params-IsValid n = elim (Option-cases sql) [
    | inl e ↦ ground arith
    | inr (t, e) ↦ elim (Bool-cases (lacks_arrays a)) [
      | inl l ↦ ground arith
      | inr l ↦ rw e (ground (arith, commit_params-IsValid c t a port_id timeout_ms h v l n))
    ]
  ]
