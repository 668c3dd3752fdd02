-- ===== src/Postgres/Lifecycle/Creation.antt =====
-- What creating and destroying a pool takes and gives: a creation that fails leaks nothing, and a
-- pool that is destroyed gives back all that its creation took.
pub mod Conns
use dart_db_connector.Handles.Tally.{
  Tally, Tally-append, held, held-plus, mutex_pair, pool_between, pool_closes, pool_closes_own,
  pool_opens,
}
use dart_db_connector.Heap.{Gave}
use mathlib.Core.Path.{subst}
use dart_db_connector.Base.{
  ℕ, zero, suc, ◌+◌, ◌≡◌, refl, sym, ℤ, pos_part, is_positive, Bool, true, false, Option, none,
  some, List, [], ◌∷◌, ◌++◌, arith, length, length-append, inl, inr, ◌⊎◌, Option-cases, Bool-cases,
}
use dart_db_connector.Heap.{Heap, Text, malloc-cases, Grew, malloc, dup_string, dup_string-Grew}
use dart_db_connector.Handles.{
  Event, opens, closes, Kind, session, mutex, cond, thread, opened, closed,
}
use dart_db_connector.Postgres.Conn.{Conn}
use dart_db_connector.Postgres.Pool.{NativePool}
use dart_db_connector.Postgres.Lifecycle.{
  InitAnswers, fresh_conn, init_conn, teardown_all, ask_all, init_all, PoolAnswers, settle,
  create_conns, create_synced, pool_create, pool_destroy,
}
use dart_db_connector.Postgres.Lifecycle.Balance.{
  Runs, blocks, AllRun, AllRun-append, ask_all-AllRun, length-ask_all, teardown_all-gives,
}
use dart_db_connector.Postgres.Lifecycle.Creation.Conns.{
  fresh-Runs, init_conn-cases, Inited, after_one, init_all-Inited, Leaves,
}

settle-Leaves :
    (conninfo : Text) (n : ℕ) (timeout_ms : ℤ) (h h1 : Heap) (k : Kind)
    (r : Option (List Conn) × Heap × List Event)
    → Grew 1 h h1
    → Inited k n [] h1 r
    → let c = settle conninfo timeout_ms r in Leaves k n 2 h c.pool c.heap c.events
unfolding settle
settle-Leaves conninfo n timeout_ms h h1 k (none, h', es) gr (g, m, t) =
    (omega (arith, g, gr), pool_between k es (omega (arith, t.0, t.1)))
settle-Leaves conninfo n timeout_ms h h1 k (some cs, h', es) gr (e, run, l, t) =
    let (o, c) = pool_opens k es in
    (
      ground (arith, gr, e),
      run,
      omega (arith, l),
      (omega (arith, o, t.0, held-plus k n), omega (arith, c, t.1)),
    )

create_conns-Leaves :
    (conninfo : Text) (n : ℕ) (timeout_ms : ℤ) (inits : ℕ → InitAnswers) (h : Heap) (k : Kind)
    → let c = create_conns conninfo n timeout_ms inits h in Leaves k n 2 h c.pool c.heap c.events
unfolding create_conns
create_conns-Leaves conninfo n timeout_ms inits h k = elim (malloc-cases h) [
  | inl (e, g) ↦ rw e (
      settle-Leaves conninfo n timeout_ms h (malloc h).1 k (init_all n 0 inits [] (malloc h).1) g
        (init_all-Inited n 0 inits [] (malloc h).1 k refl))
  | inr (e, g) ↦ rw e (omega (arith, g), pool_between k [] refl)
]

-- The first two blocks are the pool and the text.
Leaves-after :
    (k : Kind) (n : ℕ) (h h2 : Heap) (p : Option NativePool) (h' : Heap) (es : List Event)
    → Grew 2 h h2
    → Leaves k n 2 h2 p h' es
    → Leaves k n 0 h p h' es
Leaves-after k n h h2 none h' es g (a, b) = (omega (arith, g, a), b)
Leaves-after k n h h2 (some p) h' es g (a, b, c, d) = (omega (arith, g, a), b, c, d)

create_synced-Leaves :
    (conninfo : Text) (n : ℕ) (timeout_ms : ℤ) (a : PoolAnswers) (h : Heap) (k : Kind)
    → let c = create_synced conninfo n timeout_ms a h in Leaves k n 2 h c.pool c.heap c.events
unfolding create_synced
create_synced-Leaves conninfo n timeout_ms a h k = elim (Bool-cases a.mutex_ok) [
  | inr e ↦ rw e (omega arith, refl)
  | inl e ↦ elim (Bool-cases a.cond_ok) [
    | inr f ↦ rw (e, f) (omega arith, mutex_pair k)
    | inl f ↦ rw (e, f) (create_conns-Leaves conninfo n timeout_ms a.inits h k)
  ]
]

-- Of every kind of handle, whatever the arguments and wherever malloc, libpq or pthreads fail: a
-- pool creation that fails leaves no block and no handle behind. One that succeeds leaves the three
-- blocks of the pool and as many connections as asked for, which run, own no block, and hold one
-- session and one thread each, and one mutex and one condition variable each beside the pool's own.
pub pool_create-Leaves :
    (conninfo : Option Text) (max_size timeout_ms : ℤ) (a : PoolAnswers) (h : Heap) (k : Kind)
    → let r = pool_create conninfo max_size timeout_ms a h in
      Leaves k (pos_part max_size) 0 h r.pool r.heap r.events
unfolding pool_create
pool_create-Leaves none max_size timeout_ms a h k = (omega arith, refl)
pool_create-Leaves (some conninfo) max_size timeout_ms a h k =
    elim (Bool-cases (is_positive max_size)) [
      | inr p ↦ rw p (omega arith, refl)
      | inl p ↦ elim (malloc-cases h) [
        | inr (e, g) ↦ rw (p, e) (omega (arith, g), refl)
        | inl (e, g) ↦ elim (Option-cases (dup_string (some conninfo) (malloc h).1).0) [
          | inl d ↦
              rw (p, e, d) (ground (arith, dup_string-Grew (some conninfo) (malloc h).1), refl)
          | inr (t, d) ↦
              rw (p, e, d)
                (Leaves-after k (pos_part max_size) h (dup_string (some conninfo) (malloc h).1).1 _
                  _ _ (ground (arith, dup_string-Grew (some conninfo) (malloc h).1))
                  (create_synced-Leaves t (pos_part max_size) timeout_ms a
                    (dup_string (some conninfo) (malloc h).1).1 k))
        ]
      ]
    ]

-- Destroying a pool whose connections run and own a number of blocks gives back those blocks and
-- the pool's three, and closes every handle of the connections and of the pool once, opening none.
pub pool_destroy-gives :
    (p : NativePool) (obtained : ℕ → Bool) (n : ℕ) (h : Heap) (k : Kind)
    → AllRun p.free_list.conns n
    → let (h', es, calls) = pool_destroy (some p) obtained h in
      Gave (n + 3) h h' × Tally k 0 (held k (length p.free_list.conns)) es
unfolding pool_destroy
pool_destroy-gives p obtained n h k run =
    let cs = p.free_list.conns in
    let (g, t) = teardown_all-gives (ask_all cs) n h k (ask_all-AllRun cs n run) in
    let (o, c) = pool_closes k (teardown_all (ask_all cs) h).1 in
    (
      omega (arith, g),
      (omega (arith, o, t.0), omega (arith, c, t.1, length-ask_all cs, held-plus k (length cs))),
    )
