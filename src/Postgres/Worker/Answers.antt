-- ===== src/Postgres/Worker/Answers.antt =====
-- Every submission that returns 1 is answered by one post, in order, and the worker clears the slot
-- before it posts.
pub mod Submissions
use mathlib.Core.Path.{subst}
use dart_db_connector.Base.{
  ◌≡◌, refl, sym, ap, ◌∙◌, ℤ, Bool, true, false, Option, none, some, List, [], ◌∷◌, ◌++◌,
  append_assoc, arith, inl, inr, Bool-cases,
}
use dart_db_connector.Heap.{Heap}
use dart_db_connector.Postgres.Conn.{Conn, empty_payload}
use dart_db_connector.Postgres.Submit.{submit_query, submit_pipeline, submit_multi_read}
use dart_db_connector.Postgres.SubmitParams.{Args, submit_query_params}
use dart_db_connector.Postgres.Drain.{Status}
use dart_db_connector.Postgres.Ledger.{IsValid, after}
use dart_db_connector.Postgres.ClearSlot.{free_slot_payload-Accounts}
use dart_db_connector.Postgres.ParamsLedger.{commit_params-cases}
use dart_db_connector.Postgres.Dispatch.{
  Request, query, batch, reads, with_params, dispatch, submit,
}
use dart_db_connector.Postgres.Dispatch.Faithful.{submit-Means}
use dart_db_connector.Postgres.Dispatch.Balance.{HasEntries, submit-balance, locked-refused}
use dart_db_connector.Postgres.Worker.{
  Phase, waiting, executing, clearing, posting, exited, Mail, Ran, step_at, worker_step, submitted,
  shut_down, Reach, starts, works, submits, shuts,
}
use dart_db_connector.Postgres.Worker.Answers.Submissions.{
  ports, ports-append, in_slot, pending, Placed, Orderly, submit_params-refused, refused-same,
  accepted-pending, submitted-Orderly,
}

IsValid-empty : (c : Conn) → c.payload ≡ empty_payload → IsValid c
IsValid-empty c e = record { cleared = λ p. e; sql_counted = rw e tt; values_counted = rw e tt }

module _ (r : Ran) (m : Mail) where
  pub wait-full :
      m.conn.slot_filled ≡ true
      → step_at waiting r m
        ≡ record m { phase = executing (dispatch m.conn.payload) m.conn.port_id }
  unfolding step_at
  wait-full s = ground arith

  pub wait-down :
      m.conn.slot_filled ≡ false
      → m.conn.shutdown_requested ≡ true
      → step_at waiting r m ≡ record m { phase = exited }
  unfolding step_at
  wait-down s d = ground arith

  pub wait-asleep :
      m.conn.slot_filled ≡ false → m.conn.shutdown_requested ≡ false → step_at waiting r m ≡ m
  unfolding step_at
  wait-asleep s d = ground arith

step_at-Orderly :
    (ph : Phase) (r : Ran) (m : Mail)
    → IsValid m.conn
    → m.accepted ≡ ports m.posts ++ pending ph m.conn
    → Placed ph m.conn
    → m.phase ≡ ph
    → Orderly (step_at ph r m)
unfolding step_at
step_at-Orderly waiting r m v a pl e = elim (Bool-cases m.conn.slot_filled) [
  | inl s ↦
      subst Orderly (sym (wait-full r m s))
        (record { valid = v; answered = a; placed = (s, refl, refl) })
  | inr s ↦ elim (Bool-cases m.conn.shutdown_requested) [
    | inl d ↦
        subst Orderly (sym (wait-down r m s d))
          (record { valid = v; answered = a; placed = (s, d) })
    | inr d ↦ subst Orderly (sym (wait-asleep r m s d)) (record {
      valid = v;
      answered = a ∙ ap (λ ph. ports m.posts ++ pending ph m.conn) (sym e);
      placed = subst (λ ph. Placed ph m.conn) (sym e) pl;
    })
  ]
]
step_at-Orderly (executing job port_id) r m v a pl e = record {
  valid = record {
    cleared = v.cleared;
    sql_counted = v.sql_counted;
    values_counted = v.values_counted;
  };
  answered = a;
  placed = (pl.0, pl.1);
}
step_at-Orderly (clearing port_id status) r m v a pl e =
    let (_, em, _) = free_slot_payload-Accounts m.conn m.heap v in
    record { valid = IsValid-empty _ em; answered = rw (a, pl.0, pl.1) refl; placed = tt }
step_at-Orderly (posting port_id status) r m v a pl e = record {
  valid = v;
  answered =
      rw (a, ports-append m.posts port_id status)
        (sym (append_assoc (ports m.posts) (port_id ∷ []) (pending waiting m.conn)));
  placed = tt;
}
step_at-Orderly exited r m v a pl e = record {
  valid = v;
  answered = a ∙ ap (λ ph. ports m.posts ++ pending ph m.conn) (sym e);
  placed = subst (λ ph. Placed ph m.conn) (sym e) pl;
}

pub worker_step-Orderly : (r : Ran) (m : Mail) → Orderly m → Orderly (worker_step r m)
unfolding worker_step
worker_step-Orderly r m v = step_at-Orderly m.phase r m v.valid v.answered v.placed refl

shut_down-Placed :
    (ph : Phase) (c : Conn) → Placed ph c → Placed ph (record c { shutdown_requested = true })
shut_down-Placed waiting c p = tt
shut_down-Placed (executing job t) c p = p
shut_down-Placed (clearing t s) c p = p
shut_down-Placed (posting t s) c p = tt
shut_down-Placed exited c p = (p.0, refl)

shut_down-pending :
    (ph : Phase) (c : Conn) → pending ph (record c { shutdown_requested = true }) ≡ pending ph c
shut_down-pending waiting c = refl
shut_down-pending (executing job t) c = refl
shut_down-pending (clearing t s) c = refl
shut_down-pending (posting t s) c = refl
shut_down-pending exited c = refl

shut_down-Orderly : (m : Mail) → Orderly m → Orderly (shut_down m)
unfolding shut_down
shut_down-Orderly m v = record {
  valid = record {
    cleared = v.valid.cleared;
    sql_counted = v.valid.sql_counted;
    values_counted = v.valid.values_counted;
  };
  answered = v.answered ∙ ap (λ l. ports m.posts ++ l) (sym (shut_down-pending m.phase m.conn));
  placed = shut_down-Placed m.phase m.conn v.placed;
}

-- In every state that the interleavings of the worker, submissions with complete arrays and the
-- shutdown request reach from an empty slot of a valid connection: the connection is valid; the
-- accepted submissions are those answered by a post, in order, followed by those that wait; the
-- slot stays filled with the payload of the snapshot while a job runs; and a worker that has
-- returned has left the slot empty after a shutdown request.
pub Reach-Orderly :
    (c : Conn) (h : Heap) (m : Mail) → IsValid c → c.slot_filled ≡ false → Reach c h m → Orderly m
Reach-Orderly c h m v s starts = record {
  valid = v;
  answered = ap (λ b. in_slot b c.port_id) (sym s);
  placed = tt;
}
Reach-Orderly c h m v s (works r n p) = worker_step-Orderly r n (Reach-Orderly c h n v s p)
Reach-Orderly c h m v s (submits r port_id timeout_ms n e p) =
    submitted-Orderly r port_id timeout_ms n e (Reach-Orderly c h n v s p)
Reach-Orderly c h m v s (shuts n p) = shut_down-Orderly n (Reach-Orderly c h n v s p)
