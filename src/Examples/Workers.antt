-- ===== src/Examples/Workers.antt =====
-- The worker and its execution paths at concrete inputs.
use dart_db_connector.Base.{
  ◌==◌, ℕ, ◌≡◌, inl, inr, refl, pos, true, false, Option, none, some, List, [], ◌∷◌, arith,
}
use dart_db_connector.Clock.{next_select_tv}
use dart_db_connector.Sql.{join_with_semicolons}
use dart_db_connector.Postgres.Chain.{no_chain, link, free_result_chain, chain_append}
use dart_db_connector.Postgres.Drain.{
  ok, aborted, ready, ticked, Turn, sent, FlushTurn, Ended, ended, send_query, enter_pipeline,
  cancel, queue_params, pipeline_sync, clear, exit_pipeline, rollback, drain_single, flush_outgoing,
}
use dart_db_connector.Postgres.Drain.Ends.{Sound, drain_single-Sound}
use dart_db_connector.Postgres.Dispatch.{query}
use dart_db_connector.Postgres.Execute.{
  drain_pipeline, drain_multi, Opening, PipelineOpening, ResultTurn, ReadEnded, execute_pipeline,
  send_all, run_pipeline, execute_multi_read, send_joined,
}
use dart_db_connector.Postgres.Execute.Pipeline.{Ends, execute_pipeline-calls}
use dart_db_connector.Postgres.Execute.Pipeline.Closing.{AnswersByOwed}
use dart_db_connector.Postgres.Execute.MultiRead.{Delivers, execute_multi_read-Delivers}
use dart_db_connector.Postgres.Execute.Stops.{drain_pipeline-StopsRead, drain_multi-StopsRead}
use dart_db_connector.Postgres.Worker.{Mail, Ran, Reach, starts, submits, started, submitted}
use dart_db_connector.Postgres.Worker.Answers.{Reach-Orderly}
use dart_db_connector.Postgres.Worker.Answers.Submissions.{Orderly, ports}
use dart_db_connector.Postgres.Worker.Progress.{work, Reach-answers}
use dart_db_connector.Examples.Shared.{
  two_results, granting, idle, idle-IsValid, noon, select, begin,
}

-- One submission, a run that succeeds, and the shutdown.
abbrev ran : Ran
ran = record { status = ok; chain = no_chain; heap = granting }

abbrev asked : Mail
asked = submitted (query (some select)) (pos 77) (pos 500) (started idle granting)

asked-Reach : Reach idle granting asked
asked-Reach =
    submits (query (some select)) (pos 77) (pos 500) (started idle granting) (omega arith) starts

Reach-Orderly_example : Orderly asked
Reach-Orderly_example = Reach-Orderly idle granting asked idle-IsValid refl asked-Reach

abbrev five : List Ran
five = ran ∷ ran ∷ ran ∷ ran ∷ ran ∷ []

Reach-answers_example :
    ((work five asked).accepted ≡ asked.accepted) × (ports (work five asked).posts ≡ asked.accepted)
Reach-answers_example =
    Reach-answers idle granting asked five idle-IsValid refl asked-Reach (omega arith)

abbrev a_tick : Turn
a_tick = record { shutdown = false; now = noon; selected = ticked; consumed = true; busy = true }

abbrev a_result : Turn
a_result = record { shutdown = false; now = noon; selected = ready; consumed = true; busy = false }

drain_single-Sound_example : Sound none (a_tick ∷ a_result ∷ []) (ended ok [])
unfolding drain_single next_select_tv
drain_single-Sound_example = drain_single-Sound none (a_tick ∷ a_result ∷ []) (ended ok []) drained
  where
    drained : drain_single none (a_tick ∷ a_result ∷ []) ≡ some (ended ok [])
    drained = refl

abbrev flushed : FlushTurn
flushed = record {
  flush = sent;
  shutdown = false;
  now = noon;
  selected = ready;
  readable = false;
  consumed = true;
}

abbrev got : Option ℕ → ResultTurn
got r = record {
  shutdown = false;
  busy = false;
  now = noon;
  selected = ready;
  consumed = true;
  got = r;
}

-- A pipeline of two statements in an aborted transaction.
abbrev pipe : PipelineOpening
pipe = record {
  socket = true;
  entered = true;
  accepts = true ∷ true ∷ [];
  synced = true;
  started = noon;
  flushing = flushed ∷ [];
  exits = λ owed. owed == 0;
  in_error = true;
}

pipe-AnswersByOwed : AnswersByOwed pipe.exits
pipe-AnswersByOwed = record { collected = refl; owed = λ n l. ground arith }

abbrev pipe_ended : Ended
pipe_ended = ended ok (
    enter_pipeline
    ∷ queue_params begin true
    ∷ queue_params select true
    ∷ pipeline_sync true
    ∷ clear 1
    ∷ clear 2
    ∷ clear 3
    ∷ exit_pipeline true
    ∷ rollback
    ∷ [])

abbrev pipe_turns : List ResultTurn
pipe_turns = got (some 1) ∷ got none ∷ got (some 2) ∷ got none ∷ got (some 3) ∷ []

execute_pipeline-calls_example : Ends 2 true pipe_ended
unfolding execute_pipeline send_all run_pipeline
execute_pipeline-calls_example =
    execute_pipeline-calls (begin ∷ select ∷ []) 2 (pos 0) pipe pipe_turns pipe_ended
      pipe-AnswersByOwed (omega arith) (omega arith) ends
  where
    ends : execute_pipeline (begin ∷ select ∷ []) (pos 2) (pos 0) pipe pipe_turns ≡ some pipe_ended
    ends = refl

-- The pipeline is shut down with two results not collected: libpq stays in pipeline mode.
cut_pipe :
    execute_pipeline
      (begin ∷ select ∷ [])
      (pos 2)
      (pos 0)
      (record pipe { in_error = false })
      (got (some 1) ∷ record (got none) { shutdown = true } ∷ [])
    ≡ some (
        ended aborted (
          enter_pipeline
          ∷ queue_params begin true
          ∷ queue_params select true
          ∷ pipeline_sync true
          ∷ clear 1
          ∷ cancel
          ∷ exit_pipeline false
          ∷ []))
unfolding execute_pipeline send_all run_pipeline
cut_pipe = refl

-- A multi-read of one statement.
abbrev opening : Opening
opening = record { socket = true; accepted = true; started = noon; flushing = flushed ∷ [] }

abbrev read_turns : List ResultTurn
read_turns = got (some 5) ∷ got none ∷ []

abbrev read_ended : ReadEnded
read_ended = record {
  status = ok;
  calls = send_query select ∷ [];
  chain = link no_chain 5;
  heap = record granting { calls = 2; allocs = 2; frees = 1 };
}

execute_multi_read-Delivers_example : Delivers [] granting (5 ∷ []) read_ended
unfolding execute_multi_read send_joined join_with_semicolons free_result_chain flush_outgoing
    drain_multi chain_append
execute_multi_read-Delivers_example =
    execute_multi_read-Delivers (select ∷ []) (pos 1) (pos 0) opening read_turns no_chain granting
      [] read_ended (record { starts = refl; ends = refl; linked = omega arith }) refl ends
  where
    ends :
        execute_multi_read (select ∷ []) (pos 1) (pos 0) opening read_turns no_chain granting
        ≡ some read_ended
    ends = refl

abbrev waits : ResultTurn
waits = record {
  shutdown = false;
  busy = true;
  now = noon;
  selected = ticked;
  consumed = true;
  got = none;
}

abbrev cut_short : List ResultTurn
cut_short = waits ∷ got (some 1) ∷ record waits { shutdown = true } ∷ []

drain_pipeline-StopsRead_example : (e : Ended) × (drain_pipeline none 3 cut_short ≡ some e)
drain_pipeline-StopsRead_example =
    drain_pipeline-StopsRead none 3 cut_short (inr (inr (inl (inl refl))))

drain_multi-StopsRead_example :
    (e : ReadEnded) × (drain_multi none cut_short two_results granting ≡ some e)
drain_multi-StopsRead_example =
    drain_multi-StopsRead none cut_short two_results granting (inr (inr (inl (inl refl))))
