-- ===== src/Postgres/Worker.antt =====
-- `native_pool_worker_main` of packages/dart_db_connector/native/c/src/native_pool_worker.c, the
-- one-slot mailbox that it serves, and the interleavings of the worker with the submissions and
-- the shutdown request. A step is what a thread does between two points where another may run:
-- the slot's mutex is held throughout it.
pub mod Answers
pub mod Progress
use dart_db_connector.Base.{
  ℕ, zero, suc, ◌+◌, ℤ, Bool, true, false, Option, none, some, List, [], ◌∷◌, ◌++◌, if◌then◌else◌,
}
use dart_db_connector.Heap.{Heap}
use dart_db_connector.Postgres.Chain.{Chain}
use dart_db_connector.Postgres.Conn.{Conn, Payload, free_slot_payload}
use dart_db_connector.Postgres.Submit.{Outcome}
use dart_db_connector.Postgres.Drain.{Status}
use dart_db_connector.Postgres.Dispatch.{Job, Request, dispatch, submit}
use dart_db_connector.Postgres.Ledger.{after}
use dart_db_connector.Postgres.Dispatch.Balance.{HasEntries}

-- Where the worker stands: at the wait, executing the job of its snapshot, about to clear the slot,
-- about to post, or returned.
pub data Phase : Type 0 where
  waiting : Phase
  executing : Job → ℤ → Phase  -- the job and port_id of the snapshot
  clearing : ℤ → Status → Phase  -- port_id and the status to post
  posting : ℤ → Status → Phase
  exited : Phase

-- `posts` is the log of Dart_PostCObject_DL, oldest first, and `accepted` the ports of the
-- submissions that returned 1, oldest first.
pub record Mail : Type 0 where
  pub phase : Phase
  pub conn : Conn
  pub heap : Heap
  pub posts : List (ℤ × Status)
  pub accepted : List ℤ

-- What the execution of a job leaves: its status, the chain and the heap. The paths touch nothing
-- else of the connection.
pub record Ran : Type 0 where
  pub status : Status
  pub chain : Chain
  pub heap : Heap

-- One step of the worker thread that stands at the phase. At the wait it goes back to sleep while
-- there is neither work nor a shutdown request.
unfoldable pub step_at : Phase → Ran → Mail → Mail
step_at waiting r m =
    if m.conn.slot_filled
    then record m { phase = executing (dispatch m.conn.payload) m.conn.port_id }
    else if m.conn.shutdown_requested
    then record m { phase = exited }
    else m
step_at (executing job port_id) r m = record m {
  phase = clearing port_id r.status;
  conn = record (m.conn) { chain = r.chain };
  heap = r.heap;
}
step_at (clearing port_id status) r m =
    let (c, h) = free_slot_payload m.conn m.heap in
    record m { phase = posting port_id status; conn = record c { slot_filled = false }; heap = h }
step_at (posting port_id status) r m = record m {
  phase = waiting;
  posts = m.posts ++ (port_id, status) ∷ [];
}
step_at exited r m = m

unfoldable pub worker_step : Ran → Mail → Mail
unfolding step_at
worker_step r m = step_at m.phase r m

-- A submission by a Dart isolate.
unfoldable pub submitted : Request → ℤ → ℤ → Mail → Mail
submitted r port_id timeout_ms m =
    let o = submit (some m.conn) r port_id timeout_ms m.heap in
    record m {
      conn = after m.conn o;
      heap = o.heap;
      accepted = if o.accepted then m.accepted ++ port_id ∷ [] else m.accepted;
    }

-- `atomic_store(&conn->shutdown_requested, 1)` by `pool_destroy`.
unfoldable pub shut_down : Mail → Mail
shut_down m = record m { conn = record (m.conn) { shutdown_requested = true } }

-- The worker on a connection as `init_conn` leaves it.
abbrev pub started : Conn → Heap → Mail
started c h = record { phase = waiting; conn = c; heap = h; posts = []; accepted = [] }

-- The states that some interleaving reaches.
pub data Reach (c : Conn) (h : Heap) : Mail → Type 0 where
  starts : Reach c h (started c h)
  works : (r : Ran) (m : Mail) → Reach c h m → Reach c h (worker_step r m)
  submits :
      (r : Request) (port_id timeout_ms : ℤ) (m : Mail)
      → HasEntries r
      → Reach c h m
      → Reach c h (submitted r port_id timeout_ms m)
  shuts : (m : Mail) → Reach c h m → Reach c h (shut_down m)
