-- ===== src/Postgres/Execute/Pipeline.antt =====
-- `execute_pipeline` asks once to leave pipeline mode, which libpq grants where every result has been
-- collected; it clears one result for each statement and one for the sync before it reports success,
-- and rolls an aborted transaction back.
pub mod Draining
pub mod Closing
use dart_db_connector.Base.{
  one_if, ℕ, zero, suc, ◌+◌, ◌-◌, ◌^◌, ◌≡◌, ◌≤◌, ◌<◌, refl, sym, ap, subst, ◌∙◌, ◌⊎◌, ℤ, pos,
  negsuc, pos_part, Bool, true, false, ◌&&◌, Option, none, some, some-injective, List, [], ◌∷◌,
  ◌++◌, arith, Bool-cases, Option-cases, inl, inr, length, take, length-take, ltb, lt→ltb,
  if◌then◌else◌,
}
use dart_db_connector.Heap.{Text}
use dart_db_connector.Clock.{Timespec}
use dart_db_connector.Postgres.Drain.{
  Status-cases, Status, ok, aborted, Call, total, is_queued, is_clear, enter_pipeline,
  pipeline_sync, exit_pipeline, cancel, rollback, clear, Ended, ended, flush_outgoing, FlushTurn,
}
use dart_db_connector.Postgres.Execute.{
  ResultTurn, PipelineOpening, drain_pipeline, remaining_of, run_pipeline, send_all,
  execute_pipeline, leave, close_pipeline, after_calls, flush_then, deadline_of,
}
use dart_db_connector.Postgres.Execute.Pipeline.Draining.{
  is_enter, is_exit, is_left, is_rollback, total-append, Drained, Round, drain_pipeline-Round,
  Drained-clear, Round-Drained, drain_pipeline-Drained, flush-calls, send_all-calls,
}
use dart_db_connector.Postgres.Execute.Pipeline.Closing.{
  AnswersByOwed, Closes, Plain, after_calls-Closes, gives_up, run_pipeline-Closes,
}

module _ (o : PipelineOpening) (v : AnswersByOwed o.exits) where
  -- The whole path, with its calls from PQenterPipelineMode on.
  Balanced : ℕ → ℕ → Ended → Type 0
  Balanced m n e =
      (total is_exit e.calls ≡ total is_enter e.calls)
      × (total is_rollback e.calls ≤ one_if o.in_error)
      × (((total is_left e.calls ≡ total is_enter e.calls)
            × (total is_clear e.calls ≡ total is_queued e.calls))
          ⊎ ((total is_left e.calls < total is_enter e.calls)
              × (total is_clear e.calls < total is_queued e.calls)))
      × (e.status ≡ ok
          → (total is_enter e.calls ≡ 1)
            × (total is_clear e.calls ≡ n)
            × (total is_queued e.calls ≡ m)
            × (total is_rollback e.calls ≡ one_if o.in_error))

  Closes-Balanced :
      (m n : ℕ) (e : Ended) (cs : List Call)
      → Closes 0 m n o.in_error (ended e.status cs)
      → e.calls ≡ enter_pipeline ∷ cs
      → Balanced m n e
  unfolding Balanced
  Closes-Balanced m n e cs (z, x, r, l, f) q = rw q (
    omega (arith, z, x),
    omega (arith, r),
    elim l [
      | inl (y, w) ↦ inl (omega (arith, z, y), omega (arith, w))
      | inr (y, w) ↦ inr (omega (arith, z, y), omega (arith, w))
    ],
    λ s.
        let (u, w, y) = f s in
        (omega (arith, z), omega (arith, u), omega (arith, w), omega (arith, y)),
  )

  entered-Balanced :
      (j m n : ℕ) (cs : List Call) (d : Option Ended) (e : Ended)
      → Plain j cs
      → ((f : Ended) → d ≡ some f → Closes j m n o.in_error f)
      → after_calls (enter_pipeline ∷ cs) d ≡ some e
      → Balanced m n e
  entered-Balanced j m n cs none e p h q = cc
  entered-Balanced j m n cs (some d) e p h q =
      let k =
        after_calls-Closes 0 j m n o.in_error cs (some d) (ended d.status (cs ++ d.calls)) p
          (λ f r. subst (λ i. Closes i m n o.in_error f) (omega arith) (h f r)) refl in
      subst (λ x. Balanced m n x) (some-injective _ _ q)
        (Closes-Balanced m n (ended d.status (enter_pipeline ∷ (cs ++ d.calls))) (cs ++ d.calls) k
          refl)

  execute_pipeline-Balanced :
      (queries : List Text) (query_count timeout_ms : ℤ) (turns : List ResultTurn) (e : Ended)
      → pos_part query_count ≤ length queries
      → execute_pipeline queries query_count timeout_ms o turns ≡ some e
      → (e ≡ ended aborted []) ⊎ Balanced (pos_part query_count + 1) (remaining_of query_count) e
  unfolding execute_pipeline
  execute_pipeline-Balanced queries query_count timeout_ms turns e le q =
      let c = pos_part query_count in
      let n = remaining_of query_count in
      let (sent, cs) = send_all (take c queries) o.accepts in
      let (z, x, l, r, k, f) = send_all-calls (take c queries) o.accepts in
      elim (Bool-cases (o.socket && o.entered)) [
        | inr b ↦ inl (sym (some-injective _ _ (rw b at q)))
        | inl b ↦ inr (elim (Bool-cases sent) [
          | inl s ↦
              entered-Balanced c (c + 1) n cs (run_pipeline query_count timeout_ms o turns) e
                (z, x, l, r, k, omega (arith, f s, length-take c queries, le))
                (run_pipeline-Closes o v query_count timeout_ms turns) (rw (b, s) at q)
          | inr s ↦
              entered-Balanced (total is_queued cs) (c + 1) n cs
                (some (ended aborted (leave o (total is_queued cs) ∷ []))) e (z, x, l, r, k, refl)
                (λ d y.
                  subst (λ i. Closes (total is_queued cs) (c + 1) n o.in_error i)
                    (some-injective _ _ y)
                    (gives_up o v (total is_queued cs) (c + 1) n [] (omega arith)))
                (rw (b, s) at q)
        ])
      ]

-- How a pipeline of `count` statements ends.
abbrev pub Ends : ℕ → Bool → Ended → Type 0
Ends count in_error e =
    (total is_exit e.calls ≡ total is_enter e.calls)
    × (total is_rollback e.calls ≤ one_if in_error)
    × (((e.status ≡ ok)
          × (total is_enter e.calls ≡ 1)
          × (total is_left e.calls ≡ 1)
          × (total is_queued e.calls ≡ count + 1)
          × (total is_clear e.calls ≡ count + 1)
          × (total is_rollback e.calls ≡ one_if in_error))
        ⊎ ((e.status ≡ aborted)
            × (((total is_left e.calls ≡ total is_enter e.calls)
                  × (total is_clear e.calls ≡ total is_queued e.calls))
                ⊎ ((total is_left e.calls < total is_enter e.calls)
                    × (total is_clear e.calls < total is_queued e.calls)))))

Balanced-Ends :
    (o : PipelineOpening) (v : AnswersByOwed o.exits) (count : ℕ) (e : Ended)
    → Balanced o v (count + 1) (count + 1) e
    → Ends count o.in_error e
unfolding Balanced
Balanced-Ends o v count e (x, r, l, f) = elim (Status-cases e.status) [
  | inr k ↦ (x, r, inr (k, l))
  | inl k ↦
      let (z, c, q, y) = f k in
      elim l [
        | inl (p, w) ↦ (x, r, inl (k, z, omega (arith, p, z), q, c, y))
        | inr (p, w) ↦ absurd (omega (arith, w, c, q))
      ]
]

remaining_of-eq : (n : ℕ) → n + 1 < 2 ^ 31 → remaining_of (pos n) ≡ n + 1
unfolding remaining_of
remaining_of-eq n l = rw (lt→ltb (n + 1) (2 ^ 31) l) refl

-- A pipeline of fewer than 2^31 - 1 statements, of which the caller gives as many as it counts or
-- more, that ends, where PQexitPipelineMode succeeds exactly if no result is left to collect, has
-- asked to leave pipeline mode as often as it entered it, and for at most one ROLLBACK, none unless
-- the transaction is aborted. Either it succeeds, entered once, had each statement and the sync
-- taken, cleared a result for each of them, left pipeline mode, and asked for a ROLLBACK exactly
-- where the transaction is aborted; or it aborts, and it has left pipeline mode if it entered it
-- and cleared a result for everything that libpq took, and is still in pipeline mode if not.
pub execute_pipeline-calls :
    (queries : List Text) (count : ℕ) (timeout_ms : ℤ) (o : PipelineOpening)
    (turns : List ResultTurn) (e : Ended)
    → AnswersByOwed o.exits
    → count + 1 < 2 ^ 31
    → count ≤ length queries
    → execute_pipeline queries (pos count) timeout_ms o turns ≡ some e
    → Ends count o.in_error e
execute_pipeline-calls queries count timeout_ms o turns e v small le q =
    elim (execute_pipeline-Balanced o v queries (pos count) timeout_ms turns e le q) [
      | inl b ↦ rw b (refl, omega arith, inr (refl, inl (refl, refl)))
      | inr b ↦
          Balanced-Ends o v count e
            (subst (λ n. Balanced o v (count + 1) n e) (remaining_of-eq count small) b)
    ]
