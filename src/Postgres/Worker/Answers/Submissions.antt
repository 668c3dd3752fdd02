-- ===== src/Postgres/Worker/Answers/Submissions.antt =====
-- What waits for an answer of `native_pool_worker_main` of
-- packages/dart_db_connector/native/c/src/native_pool_worker.c, and what a submission adds to it.
use dart_db_connector.Base.{
  ◌≡◌, refl, ap, ℤ, Bool, true, false, Option, none, some, List, [], ◌∷◌, ◌++◌, append_assoc, arith,
  inl, inr, Bool-cases,
}
use dart_db_connector.Heap.{Heap}
use dart_db_connector.Postgres.Conn.{Conn}
use dart_db_connector.Postgres.Submit.{submit_query, submit_pipeline, submit_multi_read}
use dart_db_connector.Postgres.SubmitParams.{Args, submit_query_params}
use dart_db_connector.Postgres.Drain.{Status}
use dart_db_connector.Postgres.Ledger.{IsValid, after}
use dart_db_connector.Postgres.ParamsLedger.{commit_params-cases}
use dart_db_connector.Postgres.Dispatch.{
  Request, query, batch, reads, with_params, dispatch, submit,
}
use dart_db_connector.Postgres.Dispatch.Faithful.{submit-Means}
use dart_db_connector.Postgres.Dispatch.Balance.{HasEntries, submit-balance, locked-refused}
use dart_db_connector.Postgres.Worker.{
  Phase, waiting, executing, clearing, posting, exited, Mail, submitted,
}

abbrev pub ports : List (ℤ × Status) → List ℤ
ports [] = []
ports ((p, s) ∷ l) = p ∷ ports l

pub ports-append :
    (l : List (ℤ × Status)) (p : ℤ) (s : Status) → ports (l ++ (p, s) ∷ []) ≡ ports l ++ p ∷ []
ports-append [] p s = refl
ports-append ((q, t) ∷ l) p s = ap (λ x. q ∷ x) (ports-append l p s)

-- The port of the job in the slot.
abbrev pub in_slot : Bool → ℤ → List ℤ
in_slot true port_id = port_id ∷ []
in_slot false port_id = []

-- The accepted submissions that wait for their post, oldest first.
abbrev pub pending : Phase → Conn → List ℤ
pending waiting c = in_slot c.slot_filled c.port_id
pending (executing job port_id) c = in_slot c.slot_filled c.port_id
pending (clearing port_id s) c = in_slot c.slot_filled c.port_id
pending (posting port_id s) c = port_id ∷ in_slot c.slot_filled c.port_id
pending exited c = in_slot c.slot_filled c.port_id

-- While a job runs, its slot stays filled with the payload of the snapshot.
abbrev pub Placed : Phase → Conn → Type 0
Placed waiting c = Unit
Placed (executing job port_id) c =
    (c.slot_filled ≡ true) × (c.port_id ≡ port_id) × (dispatch c.payload ≡ job)
Placed (clearing port_id s) c = (c.slot_filled ≡ true) × (c.port_id ≡ port_id)
Placed (posting port_id s) c = Unit
Placed exited c = (c.slot_filled ≡ false) × (c.shutdown_requested ≡ true)

pub record Orderly (m : Mail) : Type 0 where
  pub valid : IsValid m.conn
  pub answered : m.accepted ≡ ports m.posts ++ pending m.phase m.conn
  pub placed : Placed m.phase m.conn

pub submit_params-refused :
    (c : Conn) (sql : Option _) (a : Args) (port_id timeout_ms : ℤ) (h : Heap)
    → let o = submit_query_params (some c) sql a port_id timeout_ms h in
      o.accepted ≡ false → after c o ≡ c
unfolding submit_query_params
submit_params-refused c none a port_id timeout_ms h e = refl
submit_params-refused c (some t) a port_id timeout_ms h e =
    ground (arith, commit_params-cases c t a port_id timeout_ms h)

pub refused-same :
    (c : Conn) (r : Request) (port_id timeout_ms : ℤ) (h : Heap)
    → let o = submit (some c) r port_id timeout_ms h in o.accepted ≡ false → after c o ≡ c
unfolding submit_query submit_pipeline submit_multi_read
refused-same c (query sql) port_id timeout_ms h e =
    ground (arith, locked-refused c false false (some (sql ∷ [])) _ port_id timeout_ms h e)
refused-same c (batch queries count) port_id timeout_ms h e =
    ground (arith, locked-refused c true false queries count port_id timeout_ms h e)
refused-same c (reads queries count) port_id timeout_ms h e =
    ground (arith, locked-refused c false true queries count port_id timeout_ms h e)
refused-same c (with_params sql a) port_id timeout_ms h e =
    submit_params-refused c sql a port_id timeout_ms h e

-- A submission finds the slot empty and puts its port last in the line.
pub accepted-pending :
    (ph : Phase) (c c' : Conn) (p : ℤ)
    → Placed ph c
    → c.slot_filled ≡ false
    → c.shutdown_requested ≡ false
    → c'.slot_filled ≡ true
    → c'.port_id ≡ p
    → (pending ph c' ≡ pending ph c ++ p ∷ []) × Placed ph c'
accepted-pending waiting c c' p pl s d s' q = (rw (s, s', q) refl, tt)
accepted-pending (executing job t) c c' p pl s d s' q = cc
accepted-pending (clearing t st) c c' p pl s d s' q = cc
accepted-pending (posting t st) c c' p pl s d s' q = (rw (s, s', q) refl, tt)
accepted-pending exited c c' p pl s d s' q = cc

pub submitted-Orderly :
    (r : Request) (port_id timeout_ms : ℤ) (m : Mail)
    → HasEntries r
    → Orderly m
    → Orderly (submitted r port_id timeout_ms m)
unfolding submitted
submitted-Orderly r port_id timeout_ms m n v =
    let o = submit (some m.conn) r port_id timeout_ms m.heap in
    elim (Bool-cases o.accepted) [
      | inr e ↦ rw e (record {
        valid = (submit-balance m.conn r port_id timeout_ms m.heap n v.valid).0;
        answered = rw (refused-same m.conn r port_id timeout_ms m.heap e) v.answered;
        placed = rw (refused-same m.conn r port_id timeout_ms m.heap e) v.placed;
      })
      | inl e ↦
          let (s, d, s', _, q) = submit-Means m.conn r port_id timeout_ms m.heap v.valid e in
          let (pe, pl) =
            accepted-pending m.phase m.conn (after m.conn o) port_id v.placed s d s' q in
          rw e (record {
            valid = (submit-balance m.conn r port_id timeout_ms m.heap n v.valid).0;
            answered = rw (pe, v.answered) (append_assoc (ports m.posts) _ _);
            placed = pl;
          })
    ]
