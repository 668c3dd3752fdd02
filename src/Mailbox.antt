-- ===== src/Mailbox.antt =====
-- The worker loop over a one-slot mailbox that the MySQL, SQLite and MongoDB drivers share:
-- `mysql_pool_worker_main`, `sqlite_pool_worker_main` and `mongo_pool_worker_main` of
-- packages/dart_db_connector/native/c/src/. What a connection must offer is the interface `Mailbox`.
-- A step is what a thread does between two points where another may run.
pub mod Order
pub mod Serves
pub mod Progress
use dart_db_connector.Base.{
  ◌≡◌, ℤ, Bool, true, false, Option, none, some, List, [], ◌∷◌, ◌++◌, if◌then◌else◌,
}
use dart_db_connector.Heap.{Heap}

-- A connection of type C, whose snapshot is a job J; an execution leaves an R, with a status S; a
-- submission is a Q. The laws say what each operation does to the slot.
pub record Mailbox (C J R Q S : Type 0) : Type 1 where
  pub slot_filled : C → Bool
  pub shutdown_requested : C → Bool
  pub port_id : C → ℤ
  pub job : C → J
  pub status : R → S
  pub keep : R → C → C  -- the results and the error of an execution
  pub heap_after : R → Heap
  pub clear : C → Heap → C × Heap  -- `free_slot_payload` and `slot_filled = 0`
  pub shut : C → C
  pub submit : Q → C → Heap → Bool × C × Heap
  pub port_of : Q → ℤ
  pub asks : Q → J  -- what an accepted request is to run
  pub IsClear : C → Type 0  -- the payload of an empty slot
  pub keep-slot :
      (r : R) (c : C)
      → (slot_filled (keep r c) ≡ slot_filled c)
        × (shutdown_requested (keep r c) ≡ shutdown_requested c)
  pub clear-slot :
      (c : C) (h : Heap)
      → (slot_filled (clear c h).0 ≡ false)
        × IsClear (clear c h).0
        × (shutdown_requested (clear c h).0 ≡ shutdown_requested c)
  pub shut-slot :
      (c : C)
      → (slot_filled (shut c) ≡ slot_filled c)
        × (port_id (shut c) ≡ port_id c)
        × (job (shut c) ≡ job c)
        × (shutdown_requested (shut c) ≡ true)
        × (IsClear c → IsClear (shut c))
  pub submit-refused : (q : Q) (c : C) (h : Heap) → (submit q c h).0 ≡ false → (submit q c h).1 ≡ c
  pub submit-accepted :
      (q : Q) (c : C) (h : Heap)
      → IsClear c
      → (submit q c h).0 ≡ true
      → (slot_filled (submit q c h).1 ≡ true)
        × (port_id (submit q c h).1 ≡ port_of q)
        × (job (submit q c h).1 ≡ asks q)
        × (shutdown_requested (submit q c h).1 ≡ false)
  pub submit-free :
      (q : Q) (c : C) (h : Heap)
      → (submit q c h).0 ≡ true
      → (slot_filled c ≡ false) × (shutdown_requested c ≡ false)

-- Where the worker stands: at the wait, executing the job of its snapshot, about to clear the slot,
-- about to post, or returned.
pub data Phase (J S : Type 0) : Type 0 where
  waiting exited : Phase J S
  executing : J → ℤ → Phase J S
  clearing posting : ℤ → S → Phase J S

-- A job that has run: the job, its port and its status.
pub record Run (J S : Type 0) : Type 0 where
  pub job : J
  pub port_id : ℤ
  pub status : S

-- The logs, oldest first: what the submissions that returned 1 ask to run and their ports, the jobs
-- that have run, and the calls of Dart_PostCObject_DL.
pub record Mail (C J S : Type 0) : Type 0 where
  pub phase : Phase J S
  pub conn : C
  pub heap : Heap
  pub accepted : List (J × ℤ)
  pub ran : List (Run J S)
  pub posts : List (ℤ × S)

-- The worker on a connection as `init_conn` leaves it.
abbrev pub started : {C J S : Type 0} → C → Heap → Mail C J S
started c h = record { phase = waiting; conn = c; heap = h; accepted = []; ran = []; posts = [] }

module _ {C J R Q S : Type 0} (b : Mailbox C J R Q S) where
  open b use {
    slot_filled, shutdown_requested, port_id, job, status, keep, heap_after, clear, shut, submit,
    port_of, asks, IsClear,
  }

  -- One step of the worker that stands at the phase. At the wait it goes back to sleep while there
  -- is neither work nor a shutdown request.
  unfoldable pub step_at : Phase J S → R → Mail C J S → Mail C J S
  step_at waiting r m =
      if slot_filled m.conn
      then record m { phase = executing (job m.conn) (port_id m.conn) }
      else if shutdown_requested m.conn
      then record m { phase = exited }
      else m
  step_at (executing j p) r m = record m {
    phase = clearing p (status r);
    conn = keep r m.conn;
    heap = heap_after r;
    ran = m.ran ++ record { job = j; port_id = p; status = status r } ∷ [];
  }
  step_at (clearing p s) r m =
      let (c, h) = clear m.conn m.heap in record m { phase = posting p s; conn = c; heap = h }
  step_at (posting p s) r m = record m { phase = waiting; posts = m.posts ++ (p, s) ∷ [] }
  step_at exited r m = m

  unfoldable pub worker_step : R → Mail C J S → Mail C J S
  worker_step r m = step_at m.phase r m

  -- A submission by a Dart isolate.
  unfoldable pub submitted : Q → Mail C J S → Mail C J S
  submitted q m =
      let (ok, c, h) = submit q m.conn m.heap in
      record m {
        conn = c;
        heap = h;
        accepted = if ok then m.accepted ++ (asks q, port_of q) ∷ [] else m.accepted;
      }

  -- `atomic_store(&conn->shutdown_requested, 1)` by the pool's destruction.
  unfoldable pub shut_down : Mail C J S → Mail C J S
  shut_down m = record m { conn = shut m.conn }

  -- The slot and what guards it are the same.
  pub record SameSlot (c c' : C) : Type 0 where
    pub filled : slot_filled c' ≡ slot_filled c
    pub shutdown : shutdown_requested c' ≡ shutdown_requested c
    pub port : port_id c' ≡ port_id c
    pub work : job c' ≡ job c
    pub cleared : IsClear c → IsClear c'

  -- The states that some interleaving reaches: with steps of the worker, submissions, the shutdown
  -- request, and whatever other calls do that leave the slot alone.
  pub data Reach (c : C) (h : Heap) : Mail C J S → Type 0 where
    starts : Reach c h (started c h)
    works : (r : R) (m : Mail C J S) → Reach c h m → Reach c h (worker_step r m)
    submits : (q : Q) (m : Mail C J S) → Reach c h m → Reach c h (submitted q m)
    shuts : (m : Mail C J S) → Reach c h m → Reach c h (shut_down m)
    touches :
        (c' : C) (h' : Heap) (m : Mail C J S)
        → SameSlot m.conn c'
        → Reach c h m
        → Reach c h (record m { conn = c'; heap = h' })
