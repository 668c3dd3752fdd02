-- ===== src/Postgres/Conn.antt =====
-- `native_conn_t` of packages/dart_db_connector/native/c/src/native_pool_internal.h, and
-- `native_pool_free_slot_payload` of native_pool.c.
use dart_db_connector.Base.{
  ℕ, ℤ, pos, pos_part, Bool, false, Option, none, some, List, [], ◌∷◌, take,
}
use dart_db_connector.Heap.{Heap, Text, free, free_strings}
use dart_db_connector.Postgres.Chain.{Chain}

-- The fields of the slot payload. A counted C array is the list of its entries.
pub record Payload : Type 0 where
  pub is_pipeline : Bool
  pub is_params : Bool
  pub is_multi_read : Bool
  pub sql : Option (List Text)
  pub sql_count : ℤ
  pub n_params : ℤ
  pub param_types : Option (List ℕ)
  pub param_values : Option (List (Option Text))
  pub param_lengths : Option (List ℤ)
  pub param_formats : Option (List ℤ)
  pub result_format : ℤ
  pub port_id : ℤ
  pub timeout_ms : ℤ

-- The mutexes, the condition variable and the thread handle have no content here.
pub record Conn : Type 0 where
  pub pg : Option ℕ
  pub index : ℕ
  pub in_use : Bool
  pub slot_filled : Bool
  pub payload : Payload
  pub open payload use *
  pub chain : Chain
  pub shutdown_requested : Bool

abbrev pub empty_payload : Payload
empty_payload = record {
  is_pipeline = false;
  is_params = false;
  is_multi_read = false;
  sql = none;
  sql_count = pos 0;
  n_params = pos 0;
  param_types = none;
  param_values = none;
  param_lengths = none;
  param_formats = none;
  result_format = pos 0;
  port_id = pos 0;
  timeout_ms = pos 0;
}

-- `for (i = 0; i < n_params; i++) free(param_values[i]);`, where an entry may be NULL.
unfoldable pub free_values : List (Option Text) → Heap → Heap
free_values [] h = h
free_values (v ∷ vs) h = free_values vs (free v h)

-- `if (conn->sql != NULL) { ... free(conn->sql); }`
abbrev pub free_sql : Option (List Text) → ℤ → Heap → Heap
free_sql none count h = h
free_sql (some ts) count h = free (some ts) (free_strings (take (pos_part count) ts) h)

-- `if (conn->param_values != NULL) { ... free(conn->param_values); }`
abbrev pub free_param_values : Option (List (Option Text)) → ℤ → Heap → Heap
free_param_values none n h = h
free_param_values (some vs) n h = free (some vs) (free_values (take (pos_part n) vs) h)

unfoldable pub free_slot_payload : Conn → Heap → Conn × Heap
unfolding free free_strings free_values
free_slot_payload c h =
    let h1 = free_sql c.sql c.sql_count h in
    let h2 = free_param_values c.param_values c.n_params h1 in
    let h3 = free c.param_types h2 in
    let h4 = free c.param_lengths h3 in
    let h5 = free c.param_formats h4 in
    (
      record c {
        payload = record {
          is_pipeline = false;
          is_params = false;
          is_multi_read = false;
          sql = none;
          sql_count = pos 0;
          n_params = pos 0;
          param_types = none;
          param_values = none;
          param_lengths = none;
          param_formats = none;
          result_format = pos 0;
          port_id = pos 0;
          timeout_ms = pos 0;
        };
      },
      h5,
    )
