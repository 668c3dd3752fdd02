-- ===== src/Sqlite/Lifecycle.antt =====
-- `init_conn`, `teardown_conn`, `sqlite_pool_create` and `sqlite_pool_destroy` of
-- packages/dart_db_connector/native/c/src/sqlite_pool.c, by the steps of Lifecycle.
use dart_db_connector.Base.{
  ℕ, ◌+◌, ◌≡◌, refl, ℤ, pos, pos_part, is_positive, Bool, true, false, not, Option, none, some,
  List, [], ◌∷◌, arith, if◌then◌else◌, length, Bool-cases, inl, inr,
}
use dart_db_connector.Heap.{Heap, Text, Gave, owned_by, owned_all, free-Gave}
use dart_db_connector.Handles.{Event, Kind, opened, closed}
use dart_db_connector.Handles.Tally.{Tally, held}
use dart_db_connector.Lifecycle.{Managed, PoolAnswers, Owned, Created, create, destroy}
use dart_db_connector.Lifecycle.Gives.{AllLive, owned_conns, destroy-gives}
use dart_db_connector.Lifecycle.Leaves.{Leaves, create-Leaves}
use dart_db_connector.Sqlite.Execute.{sqlite_free_result_chain}
use dart_db_connector.Sqlite.Execute.Accounts.{chain_cost, free_result_chain-Frees}
use dart_db_connector.Sqlite.Slot.{
  SqliteConn, sqlite_empty, no_error, sqlite_pool_free_slot_payload,
}

-- As `init_conn` leaves the connection of an index.
abbrev pub sqlite_fresh : ℕ → SqliteConn
sqlite_fresh index = record {
  db = some index;
  index = index;
  in_use = false;
  slot_filled = false;
  payload = sqlite_empty;
  last_result = [];
  last_error = no_error;
  shutdown_requested = false;
}

abbrev pub has_handle : Option ℕ → Bool
has_handle none = false
has_handle (some n) = true

-- The part of `teardown_conn` between the join and the handles.
unfoldable pub sqlite_release : SqliteConn → Heap → SqliteConn × Heap
unfolding sqlite_pool_free_slot_payload
sqlite_release c h =
    let (c1, h1) = sqlite_pool_free_slot_payload c h in
    let h2 = sqlite_free_result_chain c1.last_result h1 in
    (record c1 { last_result = []; db = none }, h2)

abbrev pub sqlite_owns : SqliteConn → ℕ
sqlite_owns c = owned_by c.payload.sql + chain_cost c.last_result

pub sqlite_release-gives :
    (c : SqliteConn) (h : Heap) → Gave (sqlite_owns c) h (sqlite_release c h).1
unfolding sqlite_release
sqlite_release-gives c h =
    let h1 = (sqlite_pool_free_slot_payload c h).1 in
    let f = free_result_chain-Frees c.last_result h1 in
    omega (arith, free-Gave c.payload.sql h, f.frees, f.allocs)

abbrev pub sqlite_managed : Managed SqliteConn
sqlite_managed = record {
  fresh = sqlite_fresh;
  live = λ c. has_handle c.db;
  ask = λ c. record c { shutdown_requested = true };
  release = sqlite_release;
  owns = sqlite_owns;
  live-fresh = λ i. refl;
  owns-fresh = λ i. refl;
  live-ask = λ c. refl;
  owns-ask = λ c. refl;
  release-gives = sqlite_release-gives;
}

-- The pool beside its busy timeout.
pub record SqlitePool : Type 0 where
  pub owned : Owned SqliteConn
  pub busy_timeout_ms : ℤ

abbrev pub with_timeout : ℤ → Created SqliteConn → Option SqlitePool × Heap × List Event
with_timeout busy_ms c = elim c.pool [
  | none ↦ (none, c.heap, c.events)
  | some p ↦ (
    some
        (record { owned = p; busy_timeout_ms = if is_positive busy_ms then busy_ms else pos 5000 }),
    c.heap,
    c.events,
  )
]

unfoldable pub sqlite_pool_create :
    Option Text → ℤ → ℤ → ℤ → PoolAnswers → Heap → Option SqlitePool × Heap × List Event
sqlite_pool_create none max_size timeout_ms busy_ms a h = (none, h, [])
sqlite_pool_create (some path) max_size timeout_ms busy_ms a h =
    if not (is_positive max_size)
    then (none, h, [])
    else with_timeout busy_ms
        (create sqlite_managed (some path ∷ []) (pos_part max_size) timeout_ms a h)

unfoldable pub sqlite_pool_destroy : Option SqlitePool → Heap → Heap × List Event
sqlite_pool_destroy none h = (h, [])
sqlite_pool_destroy (some p) h = destroy sqlite_managed p.owned h

-- What the creation leaves, of one kind of handle.
abbrev pub SqliteLeaves : Kind → ℕ → Heap → Option SqlitePool × Heap × List Event → Type 0
SqliteLeaves k n h (none, h', es) = Gave 0 h h' × (opened k es ≡ closed k es)
SqliteLeaves k n h (some p, h', es) =
    (h'.allocs + h.frees ≡ h.allocs + h'.frees + 2 + owned_all p.owned.strings)
    × AllLive sqlite_managed p.owned.free_list.conns
    × (owned_conns sqlite_managed p.owned.free_list.conns ≡ 0)
    × (length p.owned.free_list.conns ≡ n)
    × Tally k (held k n) 0 es

-- Of every kind of handle, whatever the arguments and wherever malloc, sqlite3 or pthreads fail:
-- creating a SQLite pool that fails leaves no block and no handle behind. One that succeeds leaves
-- the two blocks of the pool and its copied path, and as many connections as asked for, which have
-- their session, own no block, and hold one session and one thread each, and one mutex and one
-- condition variable each beside the pool's own.
pub sqlite_pool_create-Leaves :
    (path : Option Text) (max_size timeout_ms busy_ms : ℤ) (a : PoolAnswers) (h : Heap) (k : Kind)
    → SqliteLeaves k (pos_part max_size) h (sqlite_pool_create path max_size timeout_ms busy_ms a h)
unfolding sqlite_pool_create
sqlite_pool_create-Leaves none max_size timeout_ms busy_ms a h k = (omega arith, refl)
sqlite_pool_create-Leaves (some path) max_size timeout_ms busy_ms a h k =
    elim (Bool-cases (is_positive max_size)) [
      | inr p ↦ rw p (omega arith, refl)
      | inl p ↦
          let c = create sqlite_managed (some path ∷ []) (pos_part max_size) timeout_ms a h in
          rw p (
            go c.pool c.heap c.events
              (create-Leaves sqlite_managed (some path ∷ []) (pos_part max_size) timeout_ms a h k))
    ]
  where
    go :
        (p : Option (Owned SqliteConn)) (h' : Heap) (es : List Event)
        → Leaves sqlite_managed k
            (pos_part max_size)
            0
            h
            (record { pool = p; heap = h'; events = es })
        → SqliteLeaves k
            (pos_part max_size)
            h
            (with_timeout busy_ms (record { pool = p; heap = h'; events = es }))
    go none h' es l = l
    go (some p) h' es (a, l, o, n, t) = (omega (arith, a), l, o, n, t)

-- Destroying a SQLite pool whose connections have their sessions gives back the blocks that their
-- slots and results own, the copied path and the pool's two blocks, and closes every handle of the
-- connections and of the pool once, opening none.
pub sqlite_pool_destroy-gives :
    (p : SqlitePool) (h : Heap) (k : Kind)
    → AllLive sqlite_managed p.owned.free_list.conns
    → let (h', es) = sqlite_pool_destroy (some p) h in
      Gave (owned_conns sqlite_managed p.owned.free_list.conns + owned_all p.owned.strings + 2) h h'
      × Tally k 0 (held k (length p.owned.free_list.conns)) es
unfolding sqlite_pool_destroy
sqlite_pool_destroy-gives p h k a = destroy-gives sqlite_managed p.owned h k a
