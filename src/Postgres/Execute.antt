-- ===== src/Postgres/Execute.antt =====
-- The execution paths of packages/dart_db_connector/native/c/src/native_pool_worker.c:
-- `execute_single`, `execute_single_params`, `execute_pipeline` and `execute_multi_read`. The
-- answers of libpq, select() and the clock are arguments; `none` means still waiting.
pub mod Pipeline
pub mod MultiRead
pub mod Stops
use dart_db_connector.Base.{
  ℕ, zero, suc, ◌+◌, ◌-◌, ◌^◌, ltb, ℤ, pos, negsuc, is_positive, pos_part, Bool, true, false,
  Option, none, some, List, [], ◌∷◌, ◌++◌, ◌&&◌, if◌then◌else◌, take,
}
use dart_db_connector.Heap.{Heap, Text, free}
use dart_db_connector.Clock.{Timespec, compute_deadline, next_select_tv}
use dart_db_connector.Sql.{join_with_semicolons}
use dart_db_connector.Postgres.Chain.{Chain, chain_append, free_result_chain}
use dart_db_connector.Postgres.Drain.{
  Status, ok, aborted, Call, send_query, send_params, queue_params, enter_pipeline, pipeline_sync,
  exit_pipeline, total, is_queued, is_clear, cancel, rollback, clear, Ended, ended, Selected,
  interrupted, failed, ticked, ready, Turn, FlushTurn, flush_outgoing, drain_single, drain_params,
}

-- What a path meets before its drain loop.
pub record Opening : Type 0 where
  pub socket : Bool  -- PQsocket is not negative
  pub accepted : Bool  -- PQsendQuery or PQsendQueryParams returns 1
  pub started : Timespec  -- the clock in `compute_deadline`
  pub flushing : List FlushTurn

-- `has_deadline` and `deadline`.
abbrev pub deadline_of : ℤ → Timespec → Option Timespec
deadline_of timeout_ms started =
    if is_positive timeout_ms then some (compute_deadline started (pos_part timeout_ms)) else none

-- The path goes on with the calls made so far in front of its own.
abbrev pub after_calls : List Call → Option Ended → Option Ended
after_calls cs none = none
after_calls cs (some e) = some (ended e.status (cs ++ e.calls))

-- `if (flush_outgoing(...) != WORKER_PORT_OK) return WORKER_PORT_ABORTED;`, with the calls
-- that the path makes before it returns.
abbrev pub flush_then : Option Ended → List Call → Option Ended → Option Ended
flush_then none on_abort next = none
flush_then (some e) on_abort next = elim e.status [
  | ok ↦ after_calls e.calls next
  | aborted ↦ some (ended aborted (e.calls ++ on_abort))
]

unfoldable pub execute_single : Text → ℤ → Opening → List Turn → Option Ended
unfolding flush_outgoing drain_single
execute_single sql timeout_ms o turns =
    let deadline = deadline_of timeout_ms o.started in
    if o.socket
    then after_calls (send_query sql ∷ []) (
        if o.accepted
        then flush_then (flush_outgoing deadline o.flushing) [] (drain_single deadline turns)
        else some (ended aborted []))
    else some (ended aborted [])

unfoldable pub execute_single_params : Text → ℤ → Opening → List Turn → Option Ended
unfolding flush_outgoing drain_params
execute_single_params sql timeout_ms o turns =
    let deadline = deadline_of timeout_ms o.started in
    if o.socket
    then after_calls (send_params sql ∷ []) (
        if o.accepted
        then flush_then (flush_outgoing deadline o.flushing) [] (drain_params deadline turns)
        else some (ended aborted []))
    else some (ended aborted [])

-- One round of the loops that take the results themselves.
pub record ResultTurn : Type 0 where
  pub shutdown : Bool
  pub busy : Bool
  pub now : Timespec
  pub selected : Selected
  pub consumed : Bool
  pub got : Option ℕ  -- PQgetResult

-- `while (remaining > 0)` of `execute_pipeline`.
unfoldable pub drain_pipeline : Option Timespec → ℕ → List ResultTurn → Option Ended
drain_pipeline deadline zero ts = some (ended ok [])
drain_pipeline deadline (suc remaining) [] = none
drain_pipeline deadline (suc remaining) (t ∷ ts) =
    let more = drain_pipeline deadline (suc remaining) ts in
    let fewer = drain_pipeline deadline remaining ts in
    if t.shutdown
    then some (ended aborted (cancel ∷ []))
    else if t.busy
    then elim (next_select_tv deadline t.now) [
      | none ↦ some (ended aborted (cancel ∷ []))
      | some tv ↦ elim t.selected [
        | interrupted ↦ more
        | failed ↦ some (ended aborted [])
        | ticked ↦ more
        | ready ↦ if t.consumed then more else some (ended aborted [])
      ]
    ]
    else elim t.got [ none ↦ more | some r ↦ after_calls (clear r ∷ []) fewer ]

-- The loop over PQsendQueryParams, which stops at the first refusal. A missing answer refuses.
unfoldable pub send_all : List Text → List Bool → Bool × List Call
send_all [] answers = (true, [])
send_all (q ∷ qs) [] = (false, queue_params q false ∷ [])
send_all (q ∷ qs) (false ∷ answers) = (false, queue_params q false ∷ [])
send_all (q ∷ qs) (true ∷ answers) =
    let (sent, cs) = send_all qs answers in (sent, queue_params q true ∷ cs)

-- What `execute_pipeline` meets. The answer of PQexitPipelineMode is by the number of results that
-- are still to be collected.
pub record PipelineOpening : Type 0 where
  pub socket : Bool
  pub entered : Bool  -- PQenterPipelineMode succeeds
  pub accepts : List Bool  -- PQsendQueryParams, for each statement
  pub synced : Bool  -- PQpipelineSync succeeds
  pub started : Timespec
  pub flushing : List FlushTurn
  pub exits : ℕ → Bool  -- PQexitPipelineMode succeeds
  pub in_error : Bool  -- PQtransactionStatus is PQTRANS_INERROR at the end

-- `int32_t remaining = query_count + 1`, as far as the loop goes: where the sum overflows, it wraps
-- around to a negative number, and the loop has no round.
unfoldable pub remaining_of : ℤ → ℕ
remaining_of (pos n) = if ltb (n + 1) (2 ^ 31) then n + 1 else 0
remaining_of (negsuc n) = 0

-- `PQexitPipelineMode(pg)`, whose answer the code ignores, with so many results not collected.
abbrev pub leave : PipelineOpening → ℕ → Call
leave o owed = exit_pipeline (o.exits owed)

-- The call after the loop, where libpq owed `owed` results before it, and the ROLLBACK of an aborted
-- transaction.
abbrev pub close_pipeline : PipelineOpening → ℕ → Option Ended → Option Ended
close_pipeline o owed none = none
close_pipeline o owed (some e) = some (
    ended e.status (
      e.calls
      ++ leave o (owed - total is_clear e.calls) ∷ (if o.in_error then rollback ∷ [] else [])))

-- From the sync on.
unfoldable pub run_pipeline : ℤ → ℤ → PipelineOpening → List ResultTurn → Option Ended
unfolding flush_outgoing drain_pipeline remaining_of
run_pipeline query_count timeout_ms o turns =
    let count = pos_part query_count in
    let deadline = deadline_of timeout_ms o.started in
    if o.synced
    then after_calls (pipeline_sync true ∷ []) (
        flush_then (flush_outgoing deadline o.flushing) (leave o (count + 1) ∷ [])
          (close_pipeline o (count + 1) (drain_pipeline deadline (remaining_of query_count) turns)))
    else some (ended aborted (pipeline_sync false ∷ leave o count ∷ []))

-- A call of PQenterPipelineMode that fails is not logged: it changes nothing.
unfoldable pub execute_pipeline :
    List Text → ℤ → ℤ → PipelineOpening → List ResultTurn → Option Ended
execute_pipeline queries query_count timeout_ms o turns =
    if o.socket && o.entered
    then (let (sent, cs) = send_all (take (pos_part query_count) queries) o.accepts in
        after_calls (enter_pipeline ∷ cs) (
          if sent
          then run_pipeline query_count timeout_ms o turns
          else some (ended aborted (leave o (total is_queued cs) ∷ []))))
    else some (ended aborted [])

-- How a multi-read ended: the chain and the heap with it.
pub record ReadEnded : Type 0 where
  pub status : Status
  pub calls : List Call
  pub chain : Chain
  pub heap : Heap

abbrev pub clears : List ℕ → List Call
clears [] = []
clears (r ∷ rs) = clear r ∷ clears rs

-- `native_pool_free_result_chain(conn); return WORKER_PORT_ABORTED;` after the calls `cs`.
abbrev pub abandon : List Call → Chain → Heap → ReadEnded
abandon cs chain h =
    let (cleared, chain', h') = free_result_chain chain h in
    record { status = aborted; calls = cs ++ clears cleared; chain = chain'; heap = h' }

-- The `while (1)` of `execute_multi_read`.
unfoldable pub drain_multi : Option Timespec → List ResultTurn → Chain → Heap → Option ReadEnded
drain_multi deadline [] chain h = none
drain_multi deadline (t ∷ ts) chain h =
    let more = drain_multi deadline ts chain h in
    if t.shutdown
    then some (abandon (cancel ∷ []) chain h)
    else if t.busy
    then elim (next_select_tv deadline t.now) [
      | none ↦ some (abandon (cancel ∷ []) chain h)
      | some tv ↦ elim t.selected [
        | interrupted ↦ more
        | failed ↦ some (abandon [] chain h)
        | ticked ↦ more
        | ready ↦ if t.consumed then more else some (abandon [] chain h)
      ]
    ]
    else elim t.got [
      | none ↦ some (record { status = ok; calls = []; chain = chain; heap = h })
      | some r ↦
          let (appended, chain', h') = chain_append chain r h in
          elim appended [
            | true ↦ drain_multi deadline ts chain' h'
            | false ↦ some (abandon (clear r ∷ []) chain' h')
          ]
    ]

-- The drain after the flush; the chain is freed where the flush is given up.
abbrev pub read_after_flush : Option Ended → Chain → Heap → Option ReadEnded → Option ReadEnded
read_after_flush none chain h next = none
read_after_flush (some e) chain h next = elim e.status [
  | ok ↦ next
  | aborted ↦ some (abandon e.calls chain h)
]

abbrev pub after_read_calls : List Call → Option ReadEnded → Option ReadEnded
after_read_calls cs none = none
after_read_calls cs (some e) = some (record e { calls = cs ++ e.calls })

-- From `PQsendQuery(pg, joined); free(joined);` on.
unfoldable pub send_joined :
    Text → Option Timespec → Opening → List ResultTurn → Chain → Heap → Option ReadEnded
unfolding free
send_joined text deadline o turns chain h =
    let h' = free (some text) h in
    after_read_calls (send_query text ∷ []) (
      if o.accepted
      then read_after_flush (flush_outgoing deadline o.flushing) chain h'
          (drain_multi deadline turns chain h')
      else some (record { status = aborted; calls = []; chain = chain; heap = h' }))

unfoldable pub execute_multi_read :
    List Text → ℤ → ℤ → Opening → List ResultTurn → Chain → Heap → Option ReadEnded
execute_multi_read queries count timeout_ms o turns chain h =
    let (stale, chain0, h0) = free_result_chain chain h in
    let (joined, h1) = join_with_semicolons (take (pos_part count) queries) h0 in
    if o.socket
    then after_read_calls (clears stale) (elim joined [
      | none ↦ some (record { status = aborted; calls = []; chain = chain0; heap = h1 })
      | some text ↦ send_joined text (deadline_of timeout_ms o.started) o turns chain0 h1
    ])
    else some (record { status = aborted; calls = []; chain = chain; heap = h })
