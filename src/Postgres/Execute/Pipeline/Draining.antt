-- ===== src/Postgres/Execute/Pipeline/Draining.antt =====
-- The drain loop of `execute_pipeline` of
-- packages/dart_db_connector/native/c/src/native_pool_worker.c, by the calls that it makes.
use dart_db_connector.Base.{
  ℕ, zero, suc, ◌+◌, ◌≤◌, one_if, length, ◌≡◌, refl, sym, ◌∙◌, ◌⊎◌, Bool, true, false, Option, none,
  some, List, [], ◌∷◌, ◌++◌, arith, Bool-cases, Option-cases, inl, inr,
}
use dart_db_connector.Heap.{Text}
use dart_db_connector.Clock.{Timespec}
use dart_db_connector.Postgres.Drain.{
  total, is_queued, is_clear, ok, aborted, Call, enter_pipeline, exit_pipeline, cancel, rollback,
  clear, Ended, ended, flush_outgoing, FlushTurn,
}
use dart_db_connector.Postgres.Execute.{ResultTurn, drain_pipeline, send_all, after_calls}

abbrev pub is_enter : Call → ℕ
is_enter enter_pipeline = 1
is_enter _ = 0

abbrev pub is_exit : Call → ℕ
is_exit (exit_pipeline answer) = 1
is_exit _ = 0

-- A call of PQexitPipelineMode that succeeds.
abbrev pub is_left : Call → ℕ
is_left (exit_pipeline answer) = one_if answer
is_left _ = 0

abbrev pub is_rollback : Call → ℕ
is_rollback rollback = 1
is_rollback _ = 0

pub total-append : (w : Call → ℕ) (cs ds : List Call) → total w (cs ++ ds) ≡ total w cs + total w ds
total-append w [] ds = omega arith
total-append w (c ∷ cs) ds = omega (arith, total-append w cs ds)

-- What the drain loop does, of each kind of call.
abbrev pub Drained : ℕ → Ended → Type 0
Drained remaining e =
    (total is_enter e.calls ≡ 0)
    × (total is_exit e.calls ≡ 0)
    × (total is_left e.calls ≡ 0)
    × (total is_rollback e.calls ≡ 0)
    × (total is_queued e.calls ≡ 0)
    × (total is_clear e.calls ≤ remaining)
    × (e.status ≡ ok → total is_clear e.calls ≡ remaining)

-- What one round does.
abbrev pub Round : Option Ended → Option Ended → Option Ended → Type 0
Round more fewer r =
    (r ≡ some (ended aborted (cancel ∷ [])))
    ⊎ (r ≡ some (ended aborted []))
    ⊎ (r ≡ more)
    ⊎ ((x : ℕ) × (r ≡ after_calls (clear x ∷ []) fewer))

pub drain_pipeline-Round :
    (deadline : Option Timespec) (remaining : ℕ) (t : ResultTurn) (ts : List ResultTurn)
    → Round
        (drain_pipeline deadline (suc remaining) ts)
        (drain_pipeline deadline remaining ts)
        (drain_pipeline deadline (suc remaining) (t ∷ ts))
unfolding drain_pipeline
drain_pipeline-Round deadline remaining t ts = elim (Option-cases t.got) [
  | inl g ↦ ground arith
  | inr (x, g) ↦ elim (Bool-cases t.busy) [
    | inl b ↦ ground arith
    | inr b ↦ elim (Bool-cases t.shutdown) [
      | inl s ↦ inl (ground arith)
      | inr s ↦ inr (inr (inr (x, ground arith)))
    ]
  ]
]

pub Drained-clear :
    (remaining x : ℕ) (fewer : Option Ended) (e : Ended)
    → ((d : Ended) → fewer ≡ some d → Drained remaining d)
    → after_calls (clear x ∷ []) fewer ≡ some e
    → Drained (suc remaining) e
Drained-clear remaining x none e ih q = cc
Drained-clear remaining x (some d) e ih q = let h = ih d refl in ground arith

pub Round-Drained :
    (remaining : ℕ) (more fewer r : Option Ended) (e : Ended)
    → Round more fewer r
    → ((d : Ended) → more ≡ some d → Drained (suc remaining) d)
    → ((d : Ended) → fewer ≡ some d → Drained remaining d)
    → r ≡ some e
    → Drained (suc remaining) e
Round-Drained remaining more fewer r e (inl p) m f q = ground arith
Round-Drained remaining more fewer r e (inr (inl p)) m f q = ground arith
Round-Drained remaining more fewer r e (inr (inr (inl p))) m f q = m e (sym p ∙ q)
Round-Drained remaining more fewer r e (inr (inr (inr (x, p)))) m f q =
    Drained-clear remaining x fewer e f (sym p ∙ q)

pub drain_pipeline-Drained :
    (deadline : Option Timespec) (remaining : ℕ) (ts : List ResultTurn) (e : Ended)
    → drain_pipeline deadline remaining ts ≡ some e
    → Drained remaining e
unfolding drain_pipeline
drain_pipeline-Drained deadline zero ts e q = ground arith
drain_pipeline-Drained deadline (suc remaining) [] e q = ground arith
drain_pipeline-Drained deadline (suc remaining) (t ∷ ts) e q =
    Round-Drained remaining _ _ _ e (drain_pipeline-Round deadline remaining t ts)
      (drain_pipeline-Drained deadline (suc remaining) ts)
      (drain_pipeline-Drained deadline remaining ts) q

-- The flush sends no call but a cancel.
pub flush-calls :
    (deadline : Option Timespec) (ts : List FlushTurn) (e : Ended)
    → flush_outgoing deadline ts ≡ some e
    → (e.calls ≡ []) ⊎ (e.calls ≡ cancel ∷ [])
unfolding flush_outgoing
flush-calls deadline [] e q = cc
flush-calls deadline (t ∷ ts) e q = ground (arith, flush-calls deadline ts e)

-- The statements taken are at most those sent, and all of them where none was refused.
pub send_all-calls :
    (qs : List Text) (answers : List Bool)
    → let (sent, cs) = send_all qs answers in
      (total is_enter cs ≡ 0)
      × (total is_exit cs ≡ 0)
      × (total is_left cs ≡ 0)
      × (total is_rollback cs ≡ 0)
      × (total is_clear cs ≡ 0)
      × (sent ≡ true → total is_queued cs ≡ length qs)
unfolding send_all
send_all-calls [] answers = omega arith
send_all-calls (q ∷ qs) [] = (refl, refl, refl, refl, refl, λ e. cc)
send_all-calls (q ∷ qs) (false ∷ answers) = (refl, refl, refl, refl, refl, λ e. cc)
send_all-calls (q ∷ qs) (true ∷ answers) =
    let (a, b, c, d, f, g) = send_all-calls qs answers in
    (
      omega (arith, a),
      omega (arith, b),
      omega (arith, c),
      omega (arith, d),
      omega (arith, f),
      λ e. omega (arith, g e),
    )
