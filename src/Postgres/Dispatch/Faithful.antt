-- ===== src/Postgres/Dispatch/Faithful.antt =====
-- The worker runs what was submitted: the path, the statements and the parameters of the request
-- that filled the slot, whatever the slot held before.
pub mod Copying
use dart_db_connector.Base.{
  somes, ℕ, ◌≡◌, refl, ap, ◌∙◌, ℤ, pos, pos_part, is_positive, Bool, true, false, Option, none,
  some, List, [], ◌∷◌, ◌++◌, append-nil, append_assoc, arith, take, replicate, inl, inr, Bool-cases,
  Option-cases,
}
use dart_db_connector.Heap.{Heap, Text, malloc}
use dart_db_connector.Postgres.Conn.{Conn, empty_payload}
use dart_db_connector.Postgres.Submit.{
  alloc_sql, submit_query, submit_pipeline, submit_multi_read, submit_locked, fill_locked,
}
use dart_db_connector.Postgres.SubmitParams.{
  Args, Copies, no_copies, value_bytes, first, rest, or_empty, copy_values, alloc_params,
  copy_params, submit_query_params, fill_params,
}
use dart_db_connector.Postgres.Ledger.{IsValid, after, alloc_sql-eq}
use dart_db_connector.Postgres.ParamsLedger.{commit_params-cases}
use dart_db_connector.Postgres.Dispatch.{
  Job, single_params, multi_read, pipeline, single, dispatch, first_statement, Request, query,
  batch, reads, with_params, submit,
}
use dart_db_connector.Postgres.Dispatch.Faithful.Copying.{
  value_buffers, expected_types, expected, copy_values-eq, alloc_params-eq, copy_params-eq,
}

submit_locked-accepted :
    (c : Conn) (p m : Bool) (queries : Option (List (Option Text))) (count port_id timeout_ms : ℤ)
    (h : Heap)
    → let o = submit_locked (some c) p m queries count port_id timeout_ms h in
      o.accepted ≡ true
      → (l : List (Option Text)) × (ts : List Text) × (queries ≡ some l)
        × (take (pos_part count) l ≡ somes ts)
        × (o.conn ≡ some (fill_locked c p m ts count port_id timeout_ms))
        × (c.slot_filled ≡ false)
        × (c.shutdown_requested ≡ false)
unfolding submit_locked
submit_locked-accepted c p m none count port_id timeout_ms h e = ground arith
submit_locked-accepted c p m (some l) count port_id timeout_ms h e =
    elim (Option-cases (alloc_sql (take (pos_part count) l) h).0) [
      | inl f ↦ ground arith
      | inr (ts, f) ↦ (
        l,
        ts,
        refl,
        alloc_sql-eq (take (pos_part count) l) h ts f,
        ground arith,
        ground arith,
        ground arith,
      )
    ]

fill-dispatch :
    (c : Conn) (p m : Bool) (ts : List Text) (count port_id timeout_ms : ℤ)
    → c.payload ≡ empty_payload
    → dispatch (fill_locked c p m ts count port_id timeout_ms).payload ≡ (elim m [
      | true ↦ multi_read (some ts) count timeout_ms
      | false ↦ elim p [
        | true ↦ pipeline (some ts) count timeout_ms
        | false ↦ single (first_statement (some ts)) timeout_ms
      ]
    ])
unfolding dispatch
fill-dispatch c p m ts count port_id timeout_ms e = ground arith

single_statement :
    (sql : Option Text) (l : List (Option Text)) (ts : List Text)
    → some (sql ∷ []) ≡ some l
    → take 1 l ≡ somes ts
    → (t : Text) × (sql ≡ some t) × (first_statement (some ts) ≡ some t)
single_statement sql [] ts q e = cc
single_statement sql (x ∷ l) [] q e = cc
single_statement sql (x ∷ l) (t ∷ ts) q e = (t, ground arith, refl)

submit_query_params-accepted :
    (c : Conn) (sql : Option Text) (a : Args) (port_id timeout_ms : ℤ) (h : Heap)
    → let o = submit_query_params (some c) sql a port_id timeout_ms h in
      o.accepted ≡ true
      → (t : Text) × (k : Copies) × (sql ≡ some t)
        × (o.conn ≡ some (fill_params c t a k port_id timeout_ms))
        × (c.slot_filled ≡ false)
        × (c.shutdown_requested ≡ false)
        × (k ≡ expected a)
unfolding submit_query_params
submit_query_params-accepted c none a port_id timeout_ms h e = ground arith
submit_query_params-accepted c (some t) a port_id timeout_ms h e =
    elim (commit_params-cases c t a port_id timeout_ms h) [
      | inl (f, g, _) ↦ ground arith
      | inr (k, h', f, g, r, _) ↦
          (t, k, refl, ground arith, ground arith, ground arith, copy_params-eq a h' k f)
    ]

-- What a request asks the worker to run.
abbrev pub Means : Request → ℤ → Job → Type 0
Means (query sql) ms j = (t : Text) × (sql ≡ some t) × (j ≡ single (some t) ms)
Means (batch queries count) ms j =
    (l : List (Option Text)) × (ts : List Text) × (queries ≡ some l)
    × (take (pos_part count) l ≡ somes ts)
    × (j ≡ pipeline (some ts) count ms)
Means (reads queries count) ms j =
    (l : List (Option Text)) × (ts : List Text) × (queries ≡ some l)
    × (take (pos_part count) l ≡ somes ts)
    × (j ≡ multi_read (some ts) count ms)
Means (with_params sql a) ms j =
    (t : Text) × (sql ≡ some t)
    × (j
        ≡ single_params (some t) a.n_params (expected a).types (expected a).values
            (expected a).lengths (expected a).formats a.result_format ms)

-- An accepted request, submitted to a valid connection in any of the four ways, found the slot
-- empty and no shutdown requested, and leaves the slot filled; the call that the worker then
-- chooses from the slot runs what the request means - its statement, its statements in order, or
-- its statement with each value copied by its own format and length - with its timeout, and the
-- slot holds its port.
pub submit-Means :
    (c : Conn) (r : Request) (port_id timeout_ms : ℤ) (h : Heap)
    → IsValid c
    → (submit (some c) r port_id timeout_ms h).accepted ≡ true
    → let o = submit (some c) r port_id timeout_ms h in
      (c.slot_filled ≡ false)
      × (c.shutdown_requested ≡ false)
      × ((after c o).slot_filled ≡ true)
      × Means r timeout_ms (dispatch (after c o).payload)
      × ((after c o).port_id ≡ port_id)
unfolding dispatch submit_query submit_pipeline submit_multi_read
submit-Means c (query sql) port_id timeout_ms h v e =
    let (l, ts, q, t, f, s, d) =
      submit_locked-accepted c false false (some (sql ∷ [])) (pos 1) port_id timeout_ms h e in
    let g = single_statement sql l ts q t in
    rw (f, after)
      (
        s,
        d,
        refl,
        (
          g.0,
          g.1,
          fill-dispatch c false false ts (pos 1) port_id timeout_ms (v.cleared s)
              ∙ ap (λ x. single x timeout_ms) g.2,
        ),
        refl,
      )
submit-Means c (batch queries count) port_id timeout_ms h v e =
    let (l, ts, q, t, f, s, d) =
      submit_locked-accepted c true false queries count port_id timeout_ms h e in
    rw (f, after)
      (
        s,
        d,
        refl,
        (l, ts, q, t, fill-dispatch c true false ts count port_id timeout_ms (v.cleared s)),
        refl,
      )
submit-Means c (reads queries count) port_id timeout_ms h v e =
    let (l, ts, q, t, f, s, d) =
      submit_locked-accepted c false true queries count port_id timeout_ms h e in
    rw (f, after)
      (
        s,
        d,
        refl,
        (l, ts, q, t, fill-dispatch c false true ts count port_id timeout_ms (v.cleared s)),
        refl,
      )
submit-Means c (with_params sql a) port_id timeout_ms h v e =
    let (t, k, q, f, s, d, g) = submit_query_params-accepted c sql a port_id timeout_ms h e in
    rw (f, after, g) (s, d, refl, (t, q, refl), refl)
