-- ===== src/Mysql/Lifecycle.antt =====
-- `init_conn`, `teardown_conn`, `mysql_pool_create`, `mysql_pool_destroy` and the cancel of
-- packages/dart_db_connector/native/c/src/mysql_pool.c, by the steps of Lifecycle.
use dart_db_connector.Base.{
  ℕ, ◌+◌, ◌≡◌, refl, ℤ, pos_part, is_positive, Bool, true, false, not, Option, none, some, List, [],
  ◌∷◌, ◌++◌, arith, if◌then◌else◌, length, Bool-cases, inl, inr,
}
use dart_db_connector.Heap.{Heap, Text, Gave, owned_by, owned_all, free-Gave}
use dart_db_connector.Handles.{
  Event, Kind, session, mutex, cond, thread, opens, closes, opened, closed,
}
use dart_db_connector.Handles.Tally.{Tally-append, held}
use dart_db_connector.Lifecycle.{Managed, PoolAnswers, Owned, Created, failed, create, destroy}
use dart_db_connector.Lifecycle.Gives.{AllLive, owned_conns, destroy-gives}
use dart_db_connector.Lifecycle.Leaves.{Leaves, create-Leaves}
use dart_db_connector.Mysql.Results.{Result}
use dart_db_connector.Mysql.Execute.{free_chain}
use dart_db_connector.Mysql.Slot.{MysqlConn, no_error, mysql_pool_free_slot_payload}
use dart_db_connector.Mysql.Slot.Means.Requests.{empty_payload}

-- As `init_conn` leaves the connection of an index.
abbrev pub mysql_fresh : ℕ → MysqlConn
mysql_fresh index = record {
  my = some index;
  index = index;
  in_use = false;
  slot_filled = false;
  payload = empty_payload;
  last_result = [];
  last_error = no_error;
  shutdown_requested = false;
}

abbrev has_handle : Option ℕ → Bool
has_handle none = false
has_handle (some n) = true

-- The part of `teardown_conn` between the join and the handles.
unfoldable pub mysql_release : MysqlConn → Heap → MysqlConn × Heap
unfolding mysql_pool_free_slot_payload
mysql_release c h =
    let (c1, h1) = mysql_pool_free_slot_payload c h in
    let (sets, h2) = free_chain c1.last_result h1 in (record c1 { last_result = []; my = none }, h2)

abbrev pub mysql_owns : MysqlConn → ℕ
mysql_owns c = owned_by c.payload.sql + length c.last_result

free_chain-Gave : (rs : List Result) (h : Heap) → Gave (length rs) h (free_chain rs h).1
unfolding free_chain
free_chain-Gave [] h = omega arith
free_chain-Gave (r ∷ rs) h = omega (arith, free_chain-Gave rs (record h { frees = h.frees + 1 }))

pub mysql_release-gives : (c : MysqlConn) (h : Heap) → Gave (mysql_owns c) h (mysql_release c h).1
unfolding mysql_release
mysql_release-gives c h =
    let h1 = (mysql_pool_free_slot_payload c h).1 in
    omega (arith, free-Gave c.payload.sql h, free_chain-Gave c.last_result h1)

abbrev pub mysql_managed : Managed MysqlConn
mysql_managed = record {
  fresh = mysql_fresh;
  live = λ c. has_handle c.my;
  ask = λ c. record c { shutdown_requested = true };
  release = mysql_release;
  owns = mysql_owns;
  live-fresh = λ i. refl;
  owns-fresh = λ i. refl;
  live-ask = λ c. refl;
  owns-ask = λ c. refl;
  release-gives = mysql_release-gives;
}

-- `host`, `user`, `password` and `db`, each of which may be NULL. `port` is kept as it is.
abbrev pub credentials : Option Text → Option Text → Option Text → Option Text → List (Option Text)
credentials host user password db = host ∷ user ∷ password ∷ db ∷ []

unfoldable pub mysql_pool_create :
    List (Option Text) → ℤ → ℤ → PoolAnswers → Heap → Created MysqlConn
mysql_pool_create strings max_size timeout_ms a h =
    if not (is_positive max_size)
    then failed h []
    else create mysql_managed strings (pos_part max_size) timeout_ms a h

-- `mysql_pool_kill_query`: the handles of the side connection, where mysql_init makes one, and
-- whether "KILL QUERY" is sent, which takes a connect.
unfoldable pub mysql_pool_kill_query : Bool → Bool → List Event × Bool
mysql_pool_kill_query made connects =
    if made then (opens session ∷ closes session ∷ [], connects) else ([], false)

-- `mysql_pool_cancel` in the loop over the connections, with the answers by index.
unfoldable pub cancel_all : List MysqlConn → (ℕ → Bool) → (ℕ → Bool) → List Event
cancel_all [] made connects = []
cancel_all (c ∷ cs) made connects =
    (mysql_pool_kill_query (made c.index) (connects c.index)).0 ++ cancel_all cs made connects

unfoldable pub mysql_pool_destroy :
    Option (Owned MysqlConn) → (ℕ → Bool) → (ℕ → Bool) → Heap → Heap × List Event
mysql_pool_destroy none made connects h = (h, [])
mysql_pool_destroy (some p) made connects h =
    let (h', es) = destroy mysql_managed p h in
    (h', cancel_all p.free_list.conns made connects ++ es)

-- Of every kind of handle, whatever the arguments and wherever malloc, libmysqlclient or pthreads
-- fail: creating a MySQL pool that fails leaves no block and no handle behind. One that succeeds
-- leaves the two blocks of the pool and its copied credentials, and as many connections as asked
-- for, which have their session, own no block, and hold one session and one thread each, and one
-- mutex and one condition variable each beside the pool's own.
pub mysql_pool_create-Leaves :
    (strings : List (Option Text)) (max_size timeout_ms : ℤ) (a : PoolAnswers) (h : Heap) (k : Kind)
    → Leaves mysql_managed k
        (pos_part max_size)
        0
        h
        (mysql_pool_create strings max_size timeout_ms a h)
unfolding mysql_pool_create
mysql_pool_create-Leaves strings max_size timeout_ms a h k =
    elim (Bool-cases (is_positive max_size)) [
      | inr p ↦ rw p (omega arith, refl)
      | inl p ↦ rw p (create-Leaves mysql_managed strings (pos_part max_size) timeout_ms a h k)
    ]

-- Each side connection is closed again.
kill-Tally :
    (k : Kind) (made connects : Bool)
    → let es = (mysql_pool_kill_query made connects).0 in opened k es ≡ closed k es
unfolding mysql_pool_kill_query
kill-Tally session true connects = refl
kill-Tally mutex true connects = refl
kill-Tally cond true connects = refl
kill-Tally thread true connects = refl
kill-Tally k false connects = refl

cancel_all-Tally :
    (k : Kind) (cs : List MysqlConn) (made connects : ℕ → Bool)
    → let es = cancel_all cs made connects in opened k es ≡ closed k es
unfolding cancel_all
cancel_all-Tally k [] made connects = refl
cancel_all-Tally k (c ∷ cs) made connects =
    let es = (mysql_pool_kill_query (made c.index) (connects c.index)).0 in
    let fs = cancel_all cs made connects in
    let e = kill-Tally k (made c.index) (connects c.index) in
    let f = cancel_all-Tally k cs made connects in
    let (o, c) =
      Tally-append k (opened k es) (closed k es) (opened k fs) (closed k fs)
        (opened k es + opened k fs) (closed k es + closed k fs) es fs (refl, refl) (refl, refl) refl
        refl in
    omega (arith, o, c, e, f)

-- Destroying a MySQL pool whose connections have their sessions gives back the blocks that their
-- slots and results own, the copied credentials and the pool's two blocks, and closes every handle
-- of the connections and of the pool once, beside those of the side connections that cancel, which
-- it opens and closes as often.
pub mysql_pool_destroy-gives :
    (p : Owned MysqlConn) (made connects : ℕ → Bool) (h : Heap) (k : Kind)
    → AllLive mysql_managed p.free_list.conns
    → let (h', es) = mysql_pool_destroy (some p) made connects h in
      Gave (owned_conns mysql_managed p.free_list.conns + owned_all p.strings + 2) h h'
      × (closed k es ≡ opened k es + held k (length p.free_list.conns))
unfolding mysql_pool_destroy
mysql_pool_destroy-gives p made connects h k a =
    let (g, t) = destroy-gives mysql_managed p h k a in
    let es = cancel_all p.free_list.conns made connects in
    let fs = (destroy mysql_managed p h).1 in
    let e = cancel_all-Tally k p.free_list.conns made connects in
    let (o, c) =
      Tally-append k (opened k es) (closed k es) (opened k fs) (closed k fs)
        (opened k es + opened k fs) (closed k es + closed k fs) es fs (refl, refl) (refl, refl) refl
        refl in
    (g, omega (arith, o, c, e, t.0, t.1))
