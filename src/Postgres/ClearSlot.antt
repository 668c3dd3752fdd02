-- ===== src/Postgres/ClearSlot.antt =====
-- `native_pool_free_slot_payload` gives back the blocks that the slot owns, no more and no fewer.
use dart_db_connector.Base.{take-length, ◌+◌, ◌≡◌, Option, none, some, List, [], ◌∷◌, arith}
use dart_db_connector.Heap.{Heap, Text, free, free_strings-frees}
use dart_db_connector.Postgres.Conn.{
  Conn, empty_payload, free_values, free_sql, free_param_values, free_slot_payload,
}
use dart_db_connector.Postgres.Ledger.{
  owned_sql, owned_values, count_values, Counts, IsValid, Accounts,
}

pub free_values-frees :
    (vs : List (Option Text)) (h : Heap)
    → ((free_values vs h).frees ≡ h.frees + count_values vs)
      × ((free_values vs h).allocs ≡ h.allocs)
unfolding free_values free
free_values-frees [] h = omega arith
free_values-frees (none ∷ vs) h =
    omega (arith, (free_values-frees vs h).0, (free_values-frees vs h).1)
free_values-frees (some v ∷ vs) h =
    let k = record h { frees = h.frees + 1 } in
    omega (arith, (free_values-frees vs k).0, (free_values-frees vs k).1)

free_sql-frees :
    (sql : Option (List Text)) (count : _) (h : Heap)
    → Counts count sql
    → ((free_sql sql count h).frees ≡ h.frees + owned_sql sql)
      × ((free_sql sql count h).allocs ≡ h.allocs)
unfolding free
free_sql-frees none count h v = omega arith
free_sql-frees (some ts) count h v =
    rw (v, take-length ts) (omega (arith, (free_strings-frees ts h).0, (free_strings-frees ts h).1))

free_param_values-frees :
    (values : Option (List (Option Text))) (n : _) (h : Heap)
    → Counts n values
    → ((free_param_values values n h).frees ≡ h.frees + owned_values values)
      × ((free_param_values values n h).allocs ≡ h.allocs)
unfolding free
free_param_values-frees none n h v = omega arith
free_param_values-frees (some vs) n h v =
    rw (v, take-length vs) (omega (arith, (free_values-frees vs h).0, (free_values-frees vs h).1))

-- Clearing the slot of a valid connection gives back every block that the payload owns, no more and
-- no fewer, and leaves the empty payload and a valid connection.
pub free_slot_payload-Accounts :
    (c : Conn) (h : Heap)
    → IsValid c
    → let (c', h') = free_slot_payload c h in
      Accounts c h c' h' × (c'.payload ≡ empty_payload) × IsValid c'
unfolding free_slot_payload
free_slot_payload-Accounts c h v = ground (
  arith,
  free_sql-frees c.sql c.sql_count h v.sql_counted,
  free_param_values-frees c.param_values c.n_params (free_sql c.sql c.sql_count h) v.values_counted,
)
