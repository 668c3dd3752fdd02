-- ===== src/Sqlite/Worker/Serves.antt =====
-- What the clients of a SQLite connection are promised: their requests run once, in order, and the
-- synchronous path never meets the worker on the connection's handle.
use dart_db_connector.Base.{
  ◌≤◌, ◌≡◌, refl, ◌∙◌, ap, true, false, Option, none, some, List, arith, length, Option-cases, inl,
  inr,
}
use dart_db_connector.Heap.{Heap}
use dart_db_connector.Mailbox.{
  Mail, Phase, waiting, exited, executing, clearing, posting, Reach, touches, SameSlot,
}
use dart_db_connector.Mailbox.Order.{Placed}
use dart_db_connector.Mailbox.Serves.{Reach-Ordered}
use dart_db_connector.Mailbox.Progress.{work, Served, Reach-serves}
use dart_db_connector.Sqlite.Execute.{SqliteStatus, SqliteRan, Prepared, sqlite_pool_execute_query}
use dart_db_connector.Sqlite.Slot.{
  SqliteConn, SqliteJob, sqlite_dispatch, Synced, refused, sqlite_conn_exec_sync,
}
use dart_db_connector.Sqlite.Worker.{IsVacant, sqlite_mailbox}

-- From every state that the interleavings of a SQLite worker, submissions, the shutdown request and
-- calls that leave the slot alone reach from an empty slot, five or more further steps of the
-- worker accept nothing, and then every accepted request has run once, in order, as what it asks -
-- its text, or its statements each ended by ';' - and every run has been answered by one post, in
-- order, to its port with its status.
pub sqlite_worker-serves :
    (c : SqliteConn) (h : Heap) (m : Mail SqliteConn SqliteJob SqliteStatus) (rs : List SqliteRan)
    → c.slot_filled ≡ false
    → IsVacant c
    → Reach sqlite_mailbox c h m
    → 5 ≤ length rs
    → ((work sqlite_mailbox rs m).accepted ≡ m.accepted)
      × Served sqlite_mailbox (work sqlite_mailbox rs m) m.accepted
sqlite_worker-serves c h m rs = Reach-serves sqlite_mailbox c h m rs

exec_sync-full :
    (c : SqliteConn) (sql : Option Prepared) (h : Heap)
    → c.slot_filled ≡ true
    → sqlite_conn_exec_sync (some c) sql h ≡ some (refused, some c, h)
unfolding sqlite_conn_exec_sync
exec_sync-full c none h e = refl
exec_sync-full c (some p) h e = ground arith

abbrev Kept : SqliteConn → SqliteConn → Type 0
Kept c c' =
    (c'.slot_filled ≡ c.slot_filled)
    × (c'.shutdown_requested ≡ c.shutdown_requested)
    × (c'.payload ≡ c.payload)

Kept-SameSlot : (c c' : SqliteConn) → Kept c c' → SameSlot sqlite_mailbox c c'
Kept-SameSlot c c' (f, d, p) = record {
  filled = f;
  shutdown = d;
  port = ap (λ x. x.port_id) p;
  work = ap sqlite_dispatch p;
  cleared = λ v. p ∙ v;
}

exec_sync-Kept :
    (c c' : SqliteConn) (sql : Option Prepared) (h h' : Heap) (r : Synced)
    → sqlite_conn_exec_sync (some c) sql h ≡ some (r, some c', h')
    → Kept c c'
unfolding sqlite_conn_exec_sync
exec_sync-Kept c c' none h h' r e = (cc, cc, cc)
exec_sync-Kept c c' (some p) h h' r e =
    elim (Option-cases (sqlite_pool_execute_query c.last_result p h)) [
      | inl q ↦ (ground arith, ground arith, ground arith)
      | inr (o, q) ↦ (ground arith, ground arith, ground arith)
    ]

-- The worker has taken the request and has not cleared the slot yet.
abbrev pub IsBusy : Phase SqliteJob SqliteStatus → Type 0
IsBusy waiting = ⊥
IsBusy exited = ⊥
IsBusy (executing j p) = Unit
IsBusy (clearing p s) = Unit
IsBusy (posting p s) = ⊥

busy-full :
    (ph : Phase SqliteJob SqliteStatus) (c : SqliteConn)
    → IsBusy ph
    → Placed sqlite_mailbox ph c
    → c.slot_filled ≡ true
busy-full waiting c k p = elim k [ ]
busy-full exited c k p = elim k [ ]
busy-full (executing j x) c k p = p
busy-full (clearing x s) c k p = p
busy-full (posting x s) c k p = elim k [ ]

-- In every state that the interleavings reach from an empty slot: while the worker runs a request
-- and until it clears the slot, a synchronous call is refused and changes nothing, so the two never
-- use the connection's handle at once; and whatever a synchronous call leaves is a state that the
-- interleavings reach.
pub sqlite_conn_exec_sync-Excludes :
    (c : SqliteConn) (h : Heap) (m : Mail SqliteConn SqliteJob SqliteStatus) (sql : Option Prepared)
    → c.slot_filled ≡ false
    → IsVacant c
    → Reach sqlite_mailbox c h m
    → (IsBusy m.phase
        → sqlite_conn_exec_sync (some m.conn) sql m.heap ≡ some (refused, some m.conn, m.heap))
      × ((r : Synced) (c' : SqliteConn) (h' : Heap)
          → sqlite_conn_exec_sync (some m.conn) sql m.heap ≡ some (r, some c', h')
          → Reach sqlite_mailbox c h (record m { conn = c'; heap = h' }))
sqlite_conn_exec_sync-Excludes c h m sql f v p =
    let o = Reach-Ordered sqlite_mailbox c h m f v p in
    (
      λ k. exec_sync-full m.conn sql m.heap (busy-full m.phase m.conn k o.placed),
      λ r c' h' e.
          touches c' h' m (Kept-SameSlot m.conn c' (exec_sync-Kept m.conn c' sql m.heap h' r e)) p,
    )
