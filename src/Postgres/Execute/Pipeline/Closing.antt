-- ===== src/Postgres/Execute/Pipeline/Closing.antt =====
-- The ends of `execute_pipeline` of packages/dart_db_connector/native/c/src/native_pool_worker.c, from
-- inside pipeline mode: the call that asks to leave it, and what is owed then.
use dart_db_connector.Base.{
  one_if, ℕ, zero, suc, ◌+◌, ◌-◌, ◌≡◌, ◌≤◌, ◌<◌, refl, ap, subst, ◌⊎◌, ℤ, pos, negsuc, pos_part,
  Bool, true, false, Option, none, some, some-injective, List, [], ◌∷◌, ◌++◌, arith, Bool-cases,
  Option-cases, inl, inr, if◌then◌else◌,
}
use dart_db_connector.Clock.{Timespec}
use dart_db_connector.Postgres.Drain.{
  Status-cases, Status, ok, aborted, Call, total, is_queued, is_clear, pipeline_sync, cancel,
  rollback, Ended, ended, flush_outgoing, FlushTurn,
}
use dart_db_connector.Postgres.Execute.{
  ResultTurn, PipelineOpening, drain_pipeline, remaining_of, run_pipeline, leave, close_pipeline,
  after_calls, flush_then, deadline_of,
}
use dart_db_connector.Postgres.Execute.Pipeline.Draining.{
  is_enter, is_exit, is_left, is_rollback, total-append, Drained, drain_pipeline-Drained,
  flush-calls,
}

-- What libpq documents of PQexitPipelineMode: it succeeds where every result has been collected, and
-- fails where some has not.
pub record AnswersByOwed (exits : ℕ → Bool) : Type 0 where
  pub collected : exits 0 ≡ true
  pub owed : (n : ℕ) → 0 < n → exits n ≡ false

-- With `k` results owed before these calls: pipeline mode is left where all are collected, and is not
-- where some are not.
abbrev pub Leaves : ℕ → Ended → Type 0
Leaves k e =
    ((total is_left e.calls ≡ 1) × (total is_clear e.calls ≡ k + total is_queued e.calls))
    ⊎ ((total is_left e.calls ≡ 0) × (total is_clear e.calls < k + total is_queued e.calls))

-- The path asks once to leave pipeline mode; at most one ROLLBACK follows, and where the path
-- succeeds it is sent exactly for an aborted transaction, after `n` results of `m` owed.
abbrev pub Closes : ℕ → ℕ → ℕ → Bool → Ended → Type 0
Closes k m n in_error e =
    (total is_enter e.calls ≡ 0)
    × (total is_exit e.calls ≡ 1)
    × (total is_rollback e.calls ≤ one_if in_error)
    × Leaves k e
    × (e.status ≡ ok
        → (total is_clear e.calls ≡ n)
          × (k + total is_queued e.calls ≡ m)
          × (total is_rollback e.calls ≡ one_if in_error))

plain_tail :
    (rb : List Call)
    → (rb ≡ []) ⊎ (rb ≡ rollback ∷ [])
    → (total is_enter rb ≡ 0)
      × (total is_exit rb ≡ 0)
      × (total is_left rb ≡ 0)
      × (total is_queued rb ≡ 0)
      × (total is_clear rb ≡ 0)
plain_tail rb (inl e) = rw e (omega arith)
plain_tail rb (inr e) = rw e (omega arith)

asked_rollback :
    (b : Bool)
    → let rb : List Call = if b then rollback ∷ [] else [] in
      ((rb ≡ []) ⊎ (rb ≡ rollback ∷ [])) × (total is_rollback rb ≡ one_if b)
asked_rollback true = (inr refl, omega arith)
asked_rollback false = (inl refl, omega arith)

aborted-ne-ok : ¬ (aborted ≡ ok)
aborted-ne-ok e = cc

module _ (o : PipelineOpening) (v : AnswersByOwed o.exits) where
  exits-cases : (n : ℕ) → ((n ≡ 0) × (o.exits n ≡ true)) ⊎ ((0 < n) × (o.exits n ≡ false))
  exits-cases zero = inl (refl, v.collected)
  exits-cases (suc n) = inr (omega arith, v.owed (suc n) (omega arith))

  -- The calls of the path, the call with what is still owed, and the ROLLBACK or nothing.
  leave-Closes :
      (owed n : ℕ) (st : Status) (cs rb : List Call)
      → total is_enter cs ≡ 0
      → total is_exit cs ≡ 0
      → total is_left cs ≡ 0
      → total is_rollback cs ≡ 0
      → total is_queued cs ≡ 0
      → total is_clear cs ≤ owed
      → ((rb ≡ []) ⊎ (rb ≡ rollback ∷ []))
      → total is_rollback rb ≤ one_if o.in_error
      → (st ≡ ok → (total is_clear cs ≡ n) × (total is_rollback rb ≡ one_if o.in_error))
      → Closes owed owed n o.in_error (ended st (cs ++ leave o (owed - total is_clear cs) ∷ rb))
  leave-Closes owed n st cs rb a b c d g f r le k =
      let x = leave o (owed - total is_clear cs) in
      let t = λ (w : Call → ℕ). total-append w cs (x ∷ rb) in
      let (z0, z1, z2, z3, z4) = plain_tail rb r in
      (
        omega (arith, t is_enter, a, z0),
        omega (arith, t is_exit, b, z1),
        omega (arith, t is_rollback, d, le),
        elim (exits-cases (owed - total is_clear cs)) [
          | inl (e, y) ↦
              let p : is_left x ≡ 1 = ap one_if y in
              inl (
                omega (arith, t is_left, c, z2, p),
                omega (arith, t is_clear, t is_queued, g, z3, z4, f, e),
              )
          | inr (e, y) ↦
              let p : is_left x ≡ 0 = ap one_if y in
              inr (
                omega (arith, t is_left, c, z2, p),
                omega (arith, t is_clear, t is_queued, g, z3, z4, f, e),
              )
        ],
        λ q.
            let (m, s) = k q in
            (
              omega (arith, t is_clear, z4, m),
              omega (arith, t is_queued, g, z3),
              omega (arith, t is_rollback, d, s),
            ),
      )

  close_pipeline-Closes :
      (owed n : ℕ) (d : Option Ended) (e : Ended)
      → n ≤ owed
      → ((f : Ended) → d ≡ some f → Drained n f)
      → close_pipeline o owed d ≡ some e
      → Closes owed owed n o.in_error e
  close_pipeline-Closes owed n none e l h q = cc
  close_pipeline-Closes owed n (some d) e l h q =
      let (a, b, c, r, g, f, k) = h d refl in
      let rb : List Call = if o.in_error then rollback ∷ [] else [] in
      let (y, z) = asked_rollback o.in_error in
      subst (λ x. Closes owed owed n o.in_error x) (some-injective _ _ q)
        (leave-Closes owed n d.status d.calls rb a b c r g (omega (arith, f, l)) y
          (omega (arith, z)) (λ s. (k s, z)))

-- The calls `cs` in front are none of these kinds, but that libpq has taken `j` of them.
abbrev pub Plain : ℕ → List Call → Type 0
Plain j cs =
    (total is_enter cs ≡ 0)
    × (total is_exit cs ≡ 0)
    × (total is_left cs ≡ 0)
    × (total is_rollback cs ≡ 0)
    × (total is_clear cs ≡ 0)
    × (total is_queued cs ≡ j)

after-Leaves :
    (k j : ℕ) (cs : List Call) (st : Status) (d : Ended)
    → Plain j cs
    → Leaves (k + j) d
    → Leaves k (ended st (cs ++ d.calls))
after-Leaves k j cs st d (a, b, c, r, f, g) x =
    let t = λ (w : Call → ℕ). total-append w cs d.calls in
    elim x [
      | inl (y, z) ↦
          inl (omega (arith, t is_left, c, y), omega (arith, t is_clear, t is_queued, f, g, z))
      | inr (y, z) ↦
          inr (omega (arith, t is_left, c, y), omega (arith, t is_clear, t is_queued, f, g, z))
    ]

pub after_calls-Closes :
    (k j m n : ℕ) (in_error : Bool) (cs : List Call) (d : Option Ended) (e : Ended)
    → Plain j cs
    → ((f : Ended) → d ≡ some f → Closes (k + j) m n in_error f)
    → after_calls cs d ≡ some e
    → Closes k m n in_error e
after_calls-Closes k j m n in_error cs none e p h q = cc
after_calls-Closes k j m n in_error cs (some d) e p h q =
    let (z, x, r, l, f) = h d refl in
    let (pz, px, pl, pr, pc, pq) = p in
    let t = λ (w : Call → ℕ). total-append w cs d.calls in
    subst (λ y. Closes k m n in_error y) (some-injective _ _ q)
      (
        omega (arith, t is_enter, z, pz),
        omega (arith, t is_exit, x, px),
        omega (arith, t is_rollback, r, pr),
        after-Leaves k j cs d.status d p l,
        λ s.
            let (u, w, y) = f s in
            (
              omega (arith, t is_clear, pc, u),
              omega (arith, t is_queued, pq, w),
              omega (arith, t is_rollback, pr, y),
            ),
      )

flush-Plain : (cs : List Call) → (cs ≡ []) ⊎ (cs ≡ cancel ∷ []) → Plain 0 cs
flush-Plain cs (inl z) = rw z (omega arith)
flush-Plain cs (inr z) = rw z (omega arith)

module _ (o : PipelineOpening) (v : AnswersByOwed o.exits) where
  -- A path that gives up after calls that libpq takes nothing of.
  pub gives_up :
      (owed m n : ℕ) (cs : List Call)
      → Plain 0 cs
      → Closes owed m n o.in_error (ended aborted (cs ++ leave o owed ∷ []))
  gives_up owed m n cs (z, x, l, r, c, q) =
      let t : Closes owed owed n o.in_error (ended aborted (cs ++ leave o owed ∷ [])) =
        subst (λ k. Closes owed owed n o.in_error (ended aborted (cs ++ leave o k ∷ [])))
          (omega (arith, c))
          (leave-Closes o v owed n aborted cs [] z x l r q (omega (arith, c)) (inl refl)
            (omega arith) (λ s. absurd (aborted-ne-ok s))) in
      (t.0, t.1, t.2, t.3, λ s. absurd (aborted-ne-ok s))

  flush_then-Closes :
      (owed n : ℕ) (deadline : Option Timespec) (ts : List FlushTurn) (d : Option Ended) (e : Ended)
      → ((f : Ended) → d ≡ some f → Closes owed owed n o.in_error f)
      → flush_then (flush_outgoing deadline ts) (leave o owed ∷ []) d ≡ some e
      → Closes owed owed n o.in_error e
  flush_then-Closes owed n deadline ts d e h q = elim (Option-cases (flush_outgoing deadline ts)) [
    | inl f ↦ ground arith
    | inr (f, g) ↦
        let p = flush-Plain f.calls (flush-calls deadline ts f g) in
        elim (Status-cases f.status) [
          | inl k ↦
              after_calls-Closes owed 0 owed n o.in_error f.calls d e p
                (λ x y. subst (λ i. Closes i owed n o.in_error x) (omega arith) (h x y))
                (rw (g, k) at q)
          | inr k ↦
              subst (λ x. Closes owed owed n o.in_error x) (some-injective _ _ (rw (g, k) at q))
                (gives_up owed owed n f.calls p)
        ]
  ]

  remaining_of-le : (z : ℤ) → remaining_of z ≤ pos_part z + 1
  unfolding remaining_of
  remaining_of-le (pos n) = ground arith
  remaining_of-le (negsuc n) = omega arith

  pub run_pipeline-Closes :
      (query_count timeout_ms : ℤ) (turns : List ResultTurn) (e : Ended)
      → run_pipeline query_count timeout_ms o turns ≡ some e
      → Closes
          (pos_part query_count)
          (pos_part query_count + 1)
          (remaining_of query_count)
          o.in_error
          e
  unfolding run_pipeline
  run_pipeline-Closes query_count timeout_ms turns e q =
      let c = pos_part query_count in
      let n = remaining_of query_count in
      elim (Bool-cases o.synced) [
        | inr s ↦
            subst (λ x. Closes c (c + 1) n o.in_error x) (some-injective _ _ (rw s at q))
              (gives_up c (c + 1) n (pipeline_sync false ∷ []) (omega arith))
        | inl s ↦
            let deadline = deadline_of timeout_ms o.started in
            let drained = drain_pipeline deadline n turns in
            after_calls-Closes c 1 (c + 1) n o.in_error (pipeline_sync true ∷ [])
              (flush_then (flush_outgoing deadline o.flushing) (leave o (c + 1) ∷ [])
                (close_pipeline o (c + 1) drained))
              e (omega arith)
              (λ f.
                flush_then-Closes (c + 1) n deadline o.flushing (close_pipeline o (c + 1) drained) f
                  (λ g.
                    close_pipeline-Closes o v (c + 1) n drained g (remaining_of-le query_count)
                      (drain_pipeline-Drained deadline n turns)))
              (rw s at q)
      ]
