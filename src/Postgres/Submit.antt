-- ===== src/Postgres/Submit.antt =====
-- The submit functions of packages/dart_db_connector/native/c/src/native_pool.c: `submit_locked`,
-- `pool_submit_query`, `pool_submit_pipeline`, `pool_submit_multi_read` and
-- `pool_submit_query_params`. An array argument is the list of its entries, and the caller gives
-- at least as many as it counts; `none` is NULL.
use dart_db_connector.Base.{
  ℤ, pos, pos_part, is_positive, Bool, true, false, ◌||◌, Option, none, some, List, [], ◌∷◌, ◌++◌,
  take, if◌then◌else◌,
}
use dart_db_connector.Heap.{Heap, Text, malloc, free, dup_string, free_strings}
use dart_db_connector.Postgres.Conn.{Conn}

-- The value returned (1 or 0), the connection and the heap afterwards.
pub record Outcome : Type 0 where
  pub accepted : Bool
  pub conn : Option Conn
  pub heap : Heap

abbrev pub refuse : Option Conn → Heap → Outcome
refuse c h = record { accepted = false; conn = c; heap = h }

-- The loop that copies the statements: on a failed copy it frees those made so far.
unfoldable pub copy_queries : List (Option Text) → List Text → Heap → Option (List Text) × Heap
unfolding dup_string free_strings
copy_queries [] made h = (some made, h)
copy_queries (q ∷ qs) made h =
    let (copy, h') = dup_string q h in
    elim copy [ none ↦ (none, free_strings made h') | some t ↦ copy_queries qs (made ++ t ∷ []) h' ]

-- `sql_copies`: the vector and the copies, or nothing.
unfoldable pub alloc_sql : List (Option Text) → Heap → Option (List Text) × Heap
unfolding malloc copy_queries free
alloc_sql qs h =
    let (ok, h1) = malloc h in
    if ok
    then (let (copies, h2) = copy_queries qs [] h1 in
        elim copies [ none ↦ (none, free (some qs) h2) | some ts ↦ (some ts, h2) ])
    else (none, h1)

-- `submit_locked` fills the slot: the parameter fields are left as they are.
abbrev pub fill_locked : Conn → Bool → Bool → List Text → ℤ → ℤ → ℤ → Conn
fill_locked c is_pipeline is_multi_read ts count port_id timeout_ms = record c {
  slot_filled = true;
  payload = record (c.payload) {
    is_pipeline = is_pipeline;
    is_multi_read = is_multi_read;
    sql = some ts;
    sql_count = count;
    port_id = port_id;
    timeout_ms = timeout_ms;
  };
}

unfoldable pub submit_locked :
    Option Conn → Bool → Bool → Option (List (Option Text)) → ℤ → ℤ → ℤ → Heap → Outcome
unfolding alloc_sql
submit_locked none is_pipeline is_multi_read queries count port_id timeout_ms h = refuse none h
submit_locked (some c) is_pipeline is_multi_read none count port_id timeout_ms h = refuse (some c) h
submit_locked (some c) is_pipeline is_multi_read (some queries) count port_id timeout_ms h =
    if is_positive count
    then if c.slot_filled || c.shutdown_requested
      then refuse (some c) h
      else (let (copies, h') = alloc_sql (take (pos_part count) queries) h in
          elim copies [
            | none ↦ refuse (some c) h'
            | some ts ↦ record {
              accepted = true;
              conn = some (fill_locked c is_pipeline is_multi_read ts count port_id timeout_ms);
              heap = h';
            }
          ])
    else refuse (some c) h

unfoldable pub submit_query : Option Conn → Option Text → ℤ → ℤ → Heap → Outcome
submit_query c sql port_id timeout_ms h =
    submit_locked c false false (some (sql ∷ [])) (pos 1) port_id timeout_ms h

unfoldable pub submit_pipeline :
    Option Conn → Option (List (Option Text)) → ℤ → ℤ → ℤ → Heap → Outcome
submit_pipeline c queries query_count port_id timeout_ms h =
    submit_locked c true false queries query_count port_id timeout_ms h

unfoldable pub submit_multi_read :
    Option Conn → Option (List (Option Text)) → ℤ → ℤ → ℤ → Heap → Outcome
submit_multi_read c queries query_count port_id timeout_ms h =
    submit_locked c false true queries query_count port_id timeout_ms h
