-- ===== src/Postgres/Drain.antt =====
-- The socket loops of packages/dart_db_connector/native/c/src/native_pool_worker.c:
-- `flush_outgoing` and the drain loop of `execute_single`. What libpq, select() and the clock
-- answer in one round of a loop is a turn; a loop runs along the turns, and `none` means that it
-- is still waiting when they run out.
pub mod Ends
use dart_db_connector.Base.{
  ◌≡◌, refl, ◌⊎◌, inl, inr, ℕ, ◌+◌, one_if, Bool, true, false, Option, none, some, List, [], ◌∷◌,
  if◌then◌else◌,
}
use dart_db_connector.Heap.{Text}
use dart_db_connector.Clock.{Timespec, next_select_tv}

-- WORKER_PORT_OK and WORKER_PORT_ABORTED.
pub data Status : Type 0 where
  ok aborted : Status

-- The calls of libpq that change the connection or a result. PQsendQueryParams, PQpipelineSync and
-- PQexitPipelineMode in pipeline mode come with their answers.
pub data Call : Type 0 where
  send_query : Text → Call
  send_params : Text → Call
  queue_params : Text → Bool → Call
  pipeline_sync exit_pipeline : Bool → Call
  enter_pipeline cancel rollback : Call
  clear : ℕ → Call

-- The calls of a kind.
abbrev pub total : (Call → ℕ) → List Call → ℕ
total w [] = 0
total w (c ∷ cs) = w c + total w cs

-- What libpq has taken in pipeline mode, and owes a result for.
abbrev pub is_queued : Call → ℕ
is_queued (queue_params q taken) = one_if taken
is_queued (pipeline_sync taken) = one_if taken
is_queued _ = 0

abbrev pub is_clear : Call → ℕ
is_clear (clear r) = 1
is_clear _ = 0

-- How a path ended, and the calls that it made, in order.
pub record Ended : Type 0 where
  pub status : Status
  pub calls : List Call

abbrev pub ended : Status → List Call → Ended
ended s cs = record { status = s; calls = cs }

-- The return of select(): -1 with EINTR, -1 otherwise, 0, or positive.
pub data Selected : Type 0 where
  interrupted failed ticked ready : Selected

-- One round of a drain loop.
pub record Turn : Type 0 where
  pub shutdown : Bool  -- shutdown_requested
  pub now : Timespec  -- the clock in `ms_until`
  pub selected : Selected
  pub consumed : Bool  -- PQconsumeInput succeeds
  pub busy : Bool  -- PQisBusy

-- PQflush: 0, negative, or 1.
pub data Flush : Type 0 where
  sent broken pending : Flush

-- One round of `flush_outgoing`.
pub record FlushTurn : Type 0 where
  pub flush : Flush
  pub shutdown : Bool
  pub now : Timespec
  pub selected : Selected
  pub readable : Bool  -- FD_ISSET(sock, &rfds)
  pub consumed : Bool

unfoldable pub flush_outgoing : Option Timespec → List FlushTurn → Option Ended
flush_outgoing deadline [] = none
flush_outgoing deadline (t ∷ ts) =
    let more = flush_outgoing deadline ts in
    elim t.flush [
      | sent ↦ some (ended ok [])
      | broken ↦ some (ended aborted [])
      | pending ↦
          if t.shutdown
          then some (ended aborted (cancel ∷ []))
          else elim (next_select_tv deadline t.now) [
            | none ↦ some (ended aborted (cancel ∷ []))
            | some tv ↦ elim t.selected [
              | interrupted ↦ more
              | failed ↦ some (ended aborted [])
              | ticked ↦ more
              | ready ↦
                  if t.readable then if t.consumed then more else some (ended aborted []) else more
            ]
          ]
    ]

-- The `while (1)` of `execute_single`.
unfoldable pub drain_single : Option Timespec → List Turn → Option Ended
drain_single deadline [] = none
drain_single deadline (t ∷ ts) =
    let more = drain_single deadline ts in
    if t.shutdown
    then some (ended aborted (cancel ∷ []))
    else elim (next_select_tv deadline t.now) [
      | none ↦ some (ended aborted (cancel ∷ []))
      | some tv ↦ elim t.selected [
        | interrupted ↦ more
        | failed ↦ some (ended aborted [])
        | ticked ↦ more
        | ready ↦
            if t.consumed
            then if t.busy then more else some (ended ok [])
            else some (ended aborted [])
      ]
    ]

-- The `while (1)` of `execute_single_params`, written out a second time in the source.
unfoldable pub drain_params : Option Timespec → List Turn → Option Ended
drain_params deadline [] = none
drain_params deadline (t ∷ ts) =
    let more = drain_params deadline ts in
    if t.shutdown
    then some (ended aborted (cancel ∷ []))
    else elim (next_select_tv deadline t.now) [
      | none ↦ some (ended aborted (cancel ∷ []))
      | some tv ↦ elim t.selected [
        | interrupted ↦ more
        | failed ↦ some (ended aborted [])
        | ticked ↦ more
        | ready ↦
            if t.consumed
            then if t.busy then more else some (ended ok [])
            else some (ended aborted [])
      ]
    ]

pub Status-cases : (s : Status) → (s ≡ ok) ⊎ (s ≡ aborted)
Status-cases ok = inl refl
Status-cases aborted = inr refl

pub Selected-cases : (s : Selected) → (s ≡ interrupted) ⊎ (s ≡ failed) ⊎ (s ≡ ticked) ⊎ (s ≡ ready)
Selected-cases interrupted = inl refl
Selected-cases failed = inr (inl refl)
Selected-cases ticked = inr (inr (inl refl))
Selected-cases ready = inr (inr (inr refl))
