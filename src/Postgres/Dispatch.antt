-- ===== src/Postgres/Dispatch.antt =====
-- What the worker makes of a full slot: the snapshot of the slot fields and the choice of the
-- execution path in `native_pool_worker_main`
-- (packages/dart_db_connector/native/c/src/native_pool_worker.c); and the four ways to fill the
-- slot (native_pool.c) as one operation.
pub mod Faithful
pub mod Balance
use dart_db_connector.Base.{ℕ, ℤ, Option, none, some, List, [], ◌∷◌, if◌then◌else◌}
use dart_db_connector.Heap.{Heap, Text}
use dart_db_connector.Postgres.Conn.{Conn, Payload}
use dart_db_connector.Postgres.Submit.{Outcome, submit_query, submit_pipeline, submit_multi_read}
use dart_db_connector.Postgres.SubmitParams.{Args, submit_query_params}

-- A call of `execute_single_params`, `execute_multi_read`, `execute_pipeline` or `execute_single`
-- with its arguments.
pub data Job : Type 0 where
  single_params :
      Option Text
      → ℤ
      → Option (List ℕ)
      → Option (List (Option Text))
      → Option (List ℤ)
      → Option (List ℤ)
      → ℤ
      → ℤ
      → Job
  multi_read : Option (List Text) → ℤ → ℤ → Job
  pipeline : Option (List Text) → ℤ → ℤ → Job
  single : Option Text → ℤ → Job

-- `sql[0]`
abbrev pub first_statement : Option (List Text) → Option Text
first_statement none = none
first_statement (some []) = none
first_statement (some (t ∷ ts)) = some t

unfoldable pub dispatch : Payload → Job
dispatch p =
    if p.is_params
    then single_params (first_statement p.sql) p.n_params p.param_types p.param_values
        p.param_lengths p.param_formats p.result_format p.timeout_ms
    else if p.is_multi_read
    then multi_read p.sql p.sql_count p.timeout_ms
    else if p.is_pipeline
    then pipeline p.sql p.sql_count p.timeout_ms
    else single (first_statement p.sql) p.timeout_ms

pub data Request : Type 0 where
  query : Option Text → Request
  batch : Option (List (Option Text)) → ℤ → Request
  reads : Option (List (Option Text)) → ℤ → Request
  with_params : Option Text → Args → Request

abbrev pub submit : Option Conn → Request → ℤ → ℤ → Heap → Outcome
submit c (query sql) = submit_query c sql
submit c (batch queries count) = submit_pipeline c queries count
submit c (reads queries count) = submit_multi_read c queries count
submit c (with_params sql a) = submit_query_params c sql a
