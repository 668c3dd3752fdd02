-- ===== src/Lifecycle.antt =====
-- Creating and destroying the pools of mysql_pool.c and sqlite_pool.c of
-- packages/dart_db_connector/native/c/src/, which have the same steps over their own connections
-- and strings. What a connection must offer is the interface `Managed`; what the driver's library
-- and pthreads answer is an argument; the handles taken and given back are a log of events.
pub mod Gives
pub mod Leaves
use dart_db_connector.Base.{
  ℕ, zero, suc, ◌+◌, ◌≡◌, ℤ, Bool, true, false, not, ◌&&◌, ◌||◌, Option, none, some, List, [], ◌∷◌,
  ◌++◌, if◌then◌else◌,
}
use dart_db_connector.Heap.{Heap, Text, malloc, free, dup_string, Gave}
use dart_db_connector.Handles.{Event, opens, closes, session, mutex, cond, thread}
use dart_db_connector.FreeList.{Pool}

-- A connection that the pool makes and tears down; `owns` counts the blocks of its payload and its
-- results.
pub record Managed (C : Type 0) : Type 0 where
  pub fresh : ℕ → C  -- as `init_conn` leaves number i
  pub live : C → Bool  -- its session is not NULL
  pub ask : C → C  -- `shutdown_requested = 1`
  pub release : C → Heap → C × Heap  -- the payload and the results freed, the session NULL
  pub owns : C → ℕ
  pub live-fresh : (i : ℕ) → live (fresh i) ≡ true
  pub owns-fresh : (i : ℕ) → owns (fresh i) ≡ 0
  pub live-ask : (c : C) → live (ask c) ≡ live c
  pub owns-ask : (c : C) → owns (ask c) ≡ owns c
  pub release-gives : (c : C) (h : Heap) → Gave (owns c) h (release c h).1

-- The driver's library gives no session, one that must be closed, or a connected one.
pub data Opened : Type 0 where
  no_session unconnected connected : Opened

-- What `init_conn` meets: the session, and zero from the three pthread calls.
pub record InitAnswers : Type 0 where
  pub opening : Opened
  pub mutex_ok : Bool
  pub cond_ok : Bool
  pub thread_ok : Bool

-- With a session: whether it returns 0, and the handles taken and given back.
abbrev pub init_threads : InitAnswers → Bool × List Event
init_threads a =
    if not a.mutex_ok
    then (false, opens session ∷ closes session ∷ [])
    else if not a.cond_ok
    then (false, opens session ∷ opens mutex ∷ closes mutex ∷ closes session ∷ [])
    else if not a.thread_ok
    then (
      false,
      opens session ∷ opens mutex ∷ opens cond ∷ closes cond ∷ closes mutex ∷ closes session ∷ [],
    )
    else (true, opens session ∷ opens mutex ∷ opens cond ∷ opens thread ∷ [])

unfoldable pub init_conn : InitAnswers → Bool × List Event
init_conn a = elim a.opening [
  | no_session ↦ (false, [])
  | unconnected ↦ (false, opens session ∷ closes session ∷ [])
  | connected ↦ init_threads a
]

-- Each string that is not NULL is copied.
unfoldable pub dup_all : List (Option Text) → Heap → List (Option Text) × Heap
dup_all [] h = ([], h)
dup_all (s ∷ ss) h =
    let (copy, h1) = dup_string s h in let (copies, h2) = dup_all ss h1 in (copy ∷ copies, h2)

-- `host != NULL && pool->host == NULL || ...`
unfoldable pub dup_failed : List (Option Text) → List (Option Text) → Bool
dup_failed (some s ∷ ss) (none ∷ cs) = true
dup_failed (s ∷ ss) (c ∷ cs) = dup_failed ss cs
dup_failed _ _ = false

unfoldable pub free_all : List (Option Text) → Heap → Heap
free_all [] h = h
free_all (s ∷ ss) h = free_all ss (free s h)

-- A pool: its copied strings and its connections.
pub record Owned (C : Type 0) : Type 0 where
  pub strings : List (Option Text)
  pub free_list : Pool C

pub record Created (C : Type 0) : Type 0 where
  pub pool : Option (Owned C)
  pub heap : Heap
  pub events : List Event

-- What creating a pool meets: zero from the two pthread calls of the pool, and each connection's
-- answers.
pub record PoolAnswers : Type 0 where
  pub mutex_ok : Bool
  pub cond_ok : Bool
  pub inits : ℕ → InitAnswers

abbrev pub failed : {C : Type 0} → Heap → List Event → Created C
failed h es = record { pool = none; heap = h; events = es }

module _ {C : Type 0} (m : Managed C) where
  -- The join, what the connection owns, and the handles.
  unfoldable pub teardown_conn : C → Heap → C × Heap × List Event
  teardown_conn c h =
      if m.live c
      then (let (c', h') = m.release c h in
          (c', h', closes thread ∷ closes cond ∷ closes mutex ∷ closes session ∷ []))
      else (c, h, [])

  unfoldable pub teardown_all : List C → Heap → Heap × List Event
  teardown_all [] h = (h, [])
  teardown_all (c ∷ cs) h =
      let (c', h1, es) = teardown_conn c h in let (h2, fs) = teardown_all cs h1 in (h2, es ++ fs)

  unfoldable pub ask_all : List C → List C
  ask_all [] = []
  ask_all (c ∷ cs) = m.ask c ∷ ask_all cs

  -- The clean-up after a failed `init_conn`: each connection made before is asked to shut down and
  -- torn down in turn.
  unfoldable pub undo_all : List C → Heap → Heap × List Event
  undo_all [] h = (h, [])
  undo_all (c ∷ cs) h =
      let (c', h1, es) = teardown_conn (m.ask c) h in
      let (h2, fs) = undo_all cs h1 in (h2, es ++ fs)

  -- The loop over `init_conn`.
  unfoldable pub init_all :
      (left i : ℕ) → (ℕ → InitAnswers) → List C → Heap → Option (List C) × Heap × List Event
  init_all zero i answers made h = (some made, h, [])
  init_all (suc left) i answers made h =
      let (ok, es) = init_conn (answers i) in
      elim ok [
        | true ↦
            let (r, h', fs) = init_all left (i + 1) answers (made ++ m.fresh i ∷ []) h in
            (r, h', es ++ fs)
        | false ↦ let (h', fs) = undo_all made h in (none, h', es ++ fs)
      ]

  -- `free` of the connection array where there is one, of the strings and of the pool.
  abbrev pub free_pool : List (Option Text) → Heap → Heap
  free_pool copies h = free {0} (some tt) (free_all copies h)

  -- What is made of that loop's answer.
  unfoldable pub settle : List (Option Text) → ℤ → Option (List C) × Heap × List Event → Created C
  settle copies timeout_ms (none, h, es) =
      failed (free_pool copies (free {0} (some tt) h))
        (opens mutex ∷ opens cond ∷ (es ++ closes cond ∷ closes mutex ∷ []))
  settle copies timeout_ms (some cs, h, es) = record {
    pool = some (record {
      strings = copies;
      free_list = record {
        default_acquire_timeout_ms = timeout_ms;
        conns = cs;
        shutting_down = false;
      };
    });
    heap = h;
    events = opens mutex ∷ opens cond ∷ es;
  }

  -- From the connection array on.
  unfoldable pub create_conns : List (Option Text) → ℕ → ℤ → (ℕ → InitAnswers) → Heap → Created C
  create_conns copies max_size timeout_ms inits h =
      let (ok, h1) = malloc h in
      if not ok
      then failed (free_pool copies h1) (opens mutex ∷ opens cond ∷ closes cond ∷ closes mutex ∷ [])
      else settle copies timeout_ms (init_all max_size 0 inits [] h1)

  -- From the copies on; `sources` are the strings given.
  unfoldable pub create_synced :
      List (Option Text) → List (Option Text) → ℕ → ℤ → PoolAnswers → Heap → Created C
  create_synced sources copies max_size timeout_ms a h =
      if dup_failed sources copies || not a.mutex_ok
      then failed (free_pool copies h) []
      else if not a.cond_ok
      then failed (free_pool copies h) (opens mutex ∷ closes mutex ∷ [])
      else create_conns copies max_size timeout_ms a.inits h

  -- From the allocation of the pool on.
  unfoldable pub create : List (Option Text) → ℕ → ℤ → PoolAnswers → Heap → Created C
  create sources max_size timeout_ms a h =
      let (ok, h1) = malloc h in
      if not ok
      then failed h1 []
      else (let (copies, h2) = dup_all sources h1 in
          create_synced sources copies max_size timeout_ms a h2)

  -- The heap and the handles given back.
  unfoldable pub destroy : Owned C → Heap → Heap × List Event
  destroy p h =
      let cs = ask_all p.free_list.conns in
      let (h1, es) = teardown_all cs h in
      let h2 = free (some cs) h1 in
      (free (some p) (free_all p.strings h2), es ++ closes cond ∷ closes mutex ∷ [])
