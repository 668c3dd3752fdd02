-- ===== src/Postgres/Lifecycle.antt =====
-- `init_conn`, `teardown_conn`, `pool_create` and `pool_destroy` of
-- packages/dart_db_connector/native/c/src/native_pool.c. What libpq and pthreads answer is an
-- argument; the handles that they give and take back are a log of events.
pub mod Balance
pub mod Creation
use dart_db_connector.Base.{
  ℕ, zero, suc, ◌+◌, ℤ, pos, pos_part, is_positive, Bool, true, false, not, ◌&&◌, ◌||◌, Option,
  none, some, List, [], ◌∷◌, ◌++◌, if◌then◌else◌,
}
use dart_db_connector.Heap.{Heap, Text, malloc, free, dup_string}
use dart_db_connector.Handles.{Event, opens, closes, session, mutex, cond, thread}
use dart_db_connector.FreeList.{Pool}
use dart_db_connector.Postgres.Chain.{no_chain, free_result_chain}
use dart_db_connector.Postgres.Conn.{Conn, empty_payload, free_slot_payload}
use dart_db_connector.Postgres.Drain.{Call}
use dart_db_connector.Postgres.Pool.{NativePool, pool_cancel}

-- What `init_conn` meets: a good PQstatus, and zero from the three pthread calls.
pub record InitAnswers : Type 0 where
  pub connected : Bool
  pub mutex_ok : Bool
  pub cond_ok : Bool
  pub thread_ok : Bool

-- The fields that `init_conn` sets first; a handle of libpq is named by the connection's index.
abbrev pub fresh_conn : ℕ → Conn
fresh_conn index = record {
  pg = some index;
  index = index;
  in_use = false;
  slot_filled = false;
  payload = empty_payload;
  chain = no_chain;
  shutdown_requested = false;
}

abbrev pub dead_conn : ℕ → Conn
dead_conn index = record (fresh_conn index) { pg = none }

-- Whether it returns 0, the connection, and the handles taken and given back. PQconnectdb gives a
-- PGconn also where the connection fails.
unfoldable pub init_conn : InitAnswers → ℕ → Bool × Conn × List Event
init_conn a index =
    if not a.connected
    then (false, dead_conn index, opens session ∷ closes session ∷ [])
    else if not a.mutex_ok
    then (false, dead_conn index, opens session ∷ closes session ∷ [])
    else if not a.cond_ok
    then (false, dead_conn index, opens session ∷ opens mutex ∷ closes mutex ∷ closes session ∷ [])
    else if not a.thread_ok
    then (
      false,
      dead_conn index,
      opens session ∷ opens mutex ∷ opens cond ∷ closes cond ∷ closes mutex ∷ closes session ∷ [],
    )
    else (true, fresh_conn index, opens session ∷ opens mutex ∷ opens cond ∷ opens thread ∷ [])

-- The join, the payload, the chain, and the handles.
unfoldable pub teardown_conn : Conn → Heap → Conn × Heap × List Event
teardown_conn c h = elim c.pg [
  | none ↦ (c, h, [])
  | some pg ↦
      let (c1, h1) = free_slot_payload c h in
      let (cleared, chain, h2) = free_result_chain c1.chain h1 in
      (
        record c1 { chain = chain; pg = none },
        h2,
        closes thread ∷ closes cond ∷ closes mutex ∷ closes session ∷ [],
      )
]

unfoldable pub teardown_all : List Conn → Heap → Heap × List Event
teardown_all [] h = (h, [])
teardown_all (c ∷ cs) h =
    let (c', h1, es) = teardown_conn c h in let (h2, fs) = teardown_all cs h1 in (h2, es ++ fs)

-- `atomic_store(&conn->shutdown_requested, 1)`
abbrev pub ask_shutdown : Conn → Conn
ask_shutdown c = record c { shutdown_requested = true }

unfoldable pub ask_all : List Conn → List Conn
ask_all [] = []
ask_all (c ∷ cs) = ask_shutdown c ∷ ask_all cs

-- The loop over `init_conn`: on the first failure the connections made so far are torn down.
unfoldable pub init_all :
    (left i : ℕ) → (ℕ → InitAnswers) → List Conn → Heap → Option (List Conn) × Heap × List Event
unfolding ask_all
init_all zero i answers made h = (some made, h, [])
init_all (suc left) i answers made h =
    let (ok, c, es) = init_conn (answers i) i in
    elim ok [
      | true ↦
          let (r, h', fs) = init_all left (i + 1) answers (made ++ c ∷ []) h in (r, h', es ++ fs)
      | false ↦ let (h', fs) = teardown_all (ask_all made) h in (none, h', es ++ fs)
    ]

-- What `pool_create` meets: zero from the two pthread calls of the pool, and each connection's.
pub record PoolAnswers : Type 0 where
  pub mutex_ok : Bool
  pub cond_ok : Bool
  pub inits : ℕ → InitAnswers

pub record Created : Type 0 where
  pub pool : Option NativePool
  pub heap : Heap
  pub events : List Event

abbrev pub failed : Heap → List Event → Created
failed h es = record { pool = none; heap = h; events = es }

-- What `pool_create` does with the answer of that loop: the failure label that frees everything,
-- or the finished pool.
unfoldable pub settle : Text → ℤ → Option (List Conn) × Heap × List Event → Created
unfolding free
settle conninfo timeout_ms (none, h, es) =
    failed (free {0} (some tt) (free {0} (some tt) (free {0} (some tt) h)))
      (opens mutex ∷ opens cond ∷ (es ++ closes cond ∷ closes mutex ∷ []))
settle conninfo timeout_ms (some cs, h, es) = record {
  pool = some (record {
    conninfo = conninfo;
    free_list = record {
      default_acquire_timeout_ms = timeout_ms;
      conns = cs;
      shutting_down = false;
    };
  });
  heap = h;
  events = opens mutex ∷ opens cond ∷ es;
}

-- From the connection array on, with the pool's mutex and condition variable made.
unfoldable pub create_conns : Text → ℕ → ℤ → (ℕ → InitAnswers) → Heap → Created
unfolding free
create_conns conninfo max_size timeout_ms inits h =
    let (ok, h1) = malloc h in
    if not ok
    then failed (free {0} (some tt) (free {0} (some tt) h1))
        (opens mutex ∷ opens cond ∷ closes cond ∷ closes mutex ∷ [])
    else settle conninfo timeout_ms (init_all max_size 0 inits [] h1)

-- From the copy of the connection string on.
unfoldable pub create_synced : Text → ℕ → ℤ → PoolAnswers → Heap → Created
unfolding free
create_synced conninfo max_size timeout_ms a h =
    if not a.mutex_ok
    then failed (free {0} (some tt) (free {0} (some tt) h)) []
    else if not a.cond_ok
    then failed (free {0} (some tt) (free {0} (some tt) h)) (opens mutex ∷ closes mutex ∷ [])
    else create_conns conninfo max_size timeout_ms a.inits h

unfoldable pub pool_create : Option Text → ℤ → ℤ → PoolAnswers → Heap → Created
unfolding free
pool_create none max_size timeout_ms a h = failed h []
pool_create (some conninfo) max_size timeout_ms a h =
    if not (is_positive max_size)
    then failed h []
    else (let (ok, h1) = malloc h in
        if not ok
        then failed h1 []
        else (let (copy, h2) = dup_string (some conninfo) h1 in
            elim copy [
              | none ↦ failed (free {0} (some tt) h2) []
              | some text ↦ create_synced text (pos_part max_size) timeout_ms a h2
            ]))

-- The cancels that `pool_destroy` sends, where `PQgetCancel` obtains one.
unfoldable pub cancel_all : List Conn → (ℕ → Bool) → List Call
unfolding pool_cancel
cancel_all [] obtained = []
cancel_all (c ∷ cs) obtained = pool_cancel (some c) (obtained c.index) ++ cancel_all cs obtained

-- The heap, the handles given back and the cancels sent.
unfoldable pub pool_destroy : Option NativePool → (ℕ → Bool) → Heap → Heap × List Event × List Call
unfolding free ask_all cancel_all
pool_destroy none obtained h = (h, [], [])
pool_destroy (some p) obtained h =
    let cs = ask_all p.free_list.conns in
    let (h1, es) = teardown_all cs h in
    let h2 = free (some cs) h1 in
    let h3 = free (some p.conninfo) h2 in
    (free (some p) h3, es ++ closes cond ∷ closes mutex ∷ [], cancel_all cs obtained)
