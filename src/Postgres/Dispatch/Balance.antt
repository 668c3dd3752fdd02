-- ===== src/Postgres/Dispatch/Balance.antt =====
-- Every submission keeps the connection valid and the heap balanced.
use dart_db_connector.Base.{
  ◌≡◌, refl, ℤ, pos, Bool, true, false, Option, none, some, List, [], ◌∷◌, arith,
}
use dart_db_connector.Heap.{Heap, Text}
use dart_db_connector.Postgres.Conn.{Conn}
use dart_db_connector.Postgres.Submit.{
  submit_query, submit_pipeline, submit_multi_read, submit_locked,
}
use dart_db_connector.Postgres.Ledger.{
  IsValid, Accounts, after, submit_locked-Accounts, submit_locked-IsValid,
}
use dart_db_connector.Postgres.ParamsLedger.{
  Enough, submit_query_params-Accounts, submit_query_params-IsValid,
}
use dart_db_connector.Postgres.Dispatch.{Request, query, batch, reads, with_params, submit}

-- The caller's arrays have the entries that it counts.
abbrev pub HasEntries : Request → Type 0
HasEntries (query sql) = Unit
HasEntries (batch queries count) = Enough count queries
HasEntries (reads queries count) = Enough count queries
HasEntries (with_params sql a) = Enough a.n_params a.param_values

locked-balance :
    (c : Conn) (p m : Bool) (queries : Option (List (Option Text))) (count port_id timeout_ms : ℤ)
    (h : Heap)
    → Enough count queries
    → IsValid c
    → let o = submit_locked (some c) p m queries count port_id timeout_ms h in
      IsValid (after c o) × Accounts c h (after c o) o.heap
locked-balance c p m none count port_id timeout_ms h n v = unfold submit_locked in (v, omega arith)
locked-balance c p m (some l) count port_id timeout_ms h n v = (
  submit_locked-IsValid c p m l count port_id timeout_ms h n v,
  submit_locked-Accounts c p m l count port_id timeout_ms h n v,
)

-- Whatever the request, if its arrays have the entries that it counts, and wherever malloc fails: a
-- valid connection stays valid, and the heap grows by exactly what the slot comes to own, which is
-- nothing where the request is refused.
pub submit-balance :
    (c : Conn) (r : Request) (port_id timeout_ms : ℤ) (h : Heap)
    → HasEntries r
    → IsValid c
    → let o = submit (some c) r port_id timeout_ms h in
      IsValid (after c o) × Accounts c h (after c o) o.heap
unfolding submit_query submit_pipeline submit_multi_read
submit-balance c (query sql) port_id timeout_ms h n v =
    locked-balance c false false (some (sql ∷ [])) (pos 1) port_id timeout_ms h (omega arith) v
submit-balance c (batch queries count) port_id timeout_ms h n v =
    locked-balance c true false queries count port_id timeout_ms h n v
submit-balance c (reads queries count) port_id timeout_ms h n v =
    locked-balance c false true queries count port_id timeout_ms h n v
submit-balance c (with_params sql a) port_id timeout_ms h n v = (
  submit_query_params-IsValid c sql a port_id timeout_ms h v n,
  submit_query_params-Accounts c sql a port_id timeout_ms h v,
)

pub locked-refused :
    (c : Conn) (p m : Bool) (queries : Option (List (Option Text))) (count port_id timeout_ms : ℤ)
    (h : Heap)
    → let o = submit_locked (some c) p m queries count port_id timeout_ms h in
      o.accepted ≡ false → o.conn ≡ some c
unfolding submit_locked
locked-refused c p m none count port_id timeout_ms h e = refl
locked-refused c p m (some l) count port_id timeout_ms h e = ground arith
