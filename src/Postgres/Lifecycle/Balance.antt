-- ===== src/Postgres/Lifecycle/Balance.antt =====
-- Creating a pool leaks nothing where it fails; destroying one gives back every handle and block
-- that it holds.
use dart_db_connector.Handles.Tally.{Tally, Tally-append, four-Tally}
use dart_db_connector.Heap.{Gave}
use dart_db_connector.Base.{ℕ, suc, ◌+◌, ◌≡◌, refl, ap, some, List, [], ◌∷◌, ◌++◌, arith, length}
use dart_db_connector.Heap.{Heap}
use dart_db_connector.Handles.{Kind}
use dart_db_connector.Postgres.Chain.Fifo.{Entry, Holds, free_result_chain-all}
use dart_db_connector.Postgres.Conn.{Conn, free_slot_payload}
use dart_db_connector.Postgres.Ledger.{owned, IsValid}
use dart_db_connector.Postgres.ClearSlot.{free_slot_payload-Accounts}
use dart_db_connector.Postgres.Lifecycle.{teardown_conn, teardown_all, ask_all}

-- A running connection: it has its session, and its slot and chain are in order.
pub record Runs (c : Conn) : Type 0 where
  pub has_session : (pg : ℕ) × (c.pg ≡ some pg)
  pub valid : IsValid c
  pub entries : List Entry
  pub holds : Holds c.chain entries

-- The blocks of a running connection: the payload's and the chain's.
abbrev pub blocks : {c : Conn} → Runs c → ℕ
blocks {c} r = owned c.payload + length r.entries

slot_chain : (c : Conn) (h : Heap) → (free_slot_payload c h).0.chain ≡ c.chain
unfolding free_slot_payload
slot_chain c h = refl

-- One handle of each kind, and every block of the connection.
teardown_conn-gives :
    (c : Conn) (h : Heap) (r : Runs c) (k : Kind)
    → let (c', h', es) = teardown_conn c h in Gave (blocks r) h h' × Tally k 0 1 es
unfolding teardown_conn
teardown_conn-gives c h r k =
    let (acc, em, va) = free_slot_payload-Accounts c h r.valid in
    let (cs, ho, fs, al) =
      free_result_chain-all (free_slot_payload c h).0.chain (free_slot_payload c h).1 r.entries
        (rw (slot_chain c h) r.holds) in
    rw r.has_session.1 (ground (arith, em), four-Tally k)

-- The connections run and own `n` blocks together.
abbrev pub AllRun : List Conn → ℕ → Type 0
AllRun [] n = n ≡ 0
AllRun (c ∷ cs) n = (r : Runs c) × (m : ℕ) × AllRun cs m × (n ≡ blocks r + m)

pub AllRun-append :
    (cs : List Conn) (c : Conn) (n : ℕ) (r : Runs c)
    → AllRun cs n
    → AllRun (cs ++ c ∷ []) (n + blocks r)
AllRun-append [] c n r a = (r, 0, refl, omega (arith, a))
AllRun-append (d ∷ cs) c n r (q, m, a, e) =
    (q, m + blocks r, AllRun-append cs c m r a, omega (arith, e))

pub ask_all-AllRun : (cs : List Conn) (n : ℕ) → AllRun cs n → AllRun (ask_all cs) n
unfolding ask_all
ask_all-AllRun [] n a = a
ask_all-AllRun (c ∷ cs) n (r, m, a, e) = (
  record {
    has_session = r.has_session;
    valid = record {
      cleared = r.valid.cleared;
      sql_counted = r.valid.sql_counted;
      values_counted = r.valid.values_counted;
    };
    entries = r.entries;
    holds = r.holds;
  },
  m,
  ask_all-AllRun cs m a,
  e,
)

pub length-ask_all : (cs : List Conn) → length (ask_all cs) ≡ length cs
unfolding ask_all
length-ask_all [] = refl
length-ask_all (c ∷ cs) = ap suc (length-ask_all cs)

pub teardown_all-gives :
    (cs : List Conn) (n : ℕ) (h : Heap) (k : Kind)
    → AllRun cs n
    → let (h', es) = teardown_all cs h in Gave n h h' × Tally k 0 (length cs) es
unfolding teardown_all
teardown_all-gives [] n h k a = (omega arith, (refl, refl))
teardown_all-gives (c ∷ cs) n h k (r, m, a, e) =
    let (g, t) = teardown_conn-gives c h r k in
    let h1 = (teardown_conn c h).1 in
    let es = (teardown_conn c h).2 in
    let (g', t') = teardown_all-gives cs m h1 k a in
    (
      omega (arith, g, g', e),
      Tally-append k 0 1 0 (length cs) 0 (suc (length cs)) es (teardown_all cs h1).1 t t' refl
          (omega arith),
    )
