-- ===== src/Postgres/Pool.antt =====
-- `pool_acquire`, `pool_release`, `poll_result` and `pool_cancel` of
-- packages/dart_db_connector/native/c/src/native_pool.c. A connection pointer is its index in the
-- pool's array, and `none` is NULL.
pub mod Polling
use dart_db_connector.Base.{
  ℕ, zero, suc, ◌≡◌, refl, ℤ, Bool, true, false, Option, none, some, List, [], ◌∷◌,
}
use dart_db_connector.Heap.{Heap}
use dart_db_connector.Clock.{Timespec}
use dart_db_connector.FreeList.{Lendable, Pool, Wake, Acquired, acquire, release}
use dart_db_connector.Postgres.Chain.{Chain, free_result_chain, chain_poll}
use dart_db_connector.Postgres.Conn.{Conn}
use dart_db_connector.Postgres.Drain.{Call, cancel}

instance abbrev pub conn_lendable : Lendable Conn
conn_lendable = record {
  in_use = λ c. c.in_use;
  set_in_use = λ b c. record c { in_use = b };
  in_use-set = λ b c. refl;
}

-- `native_pool_t`.
pub record NativePool : Type 0 where
  pub conninfo : List ℕ
  pub free_list : Pool Conn

unfoldable pub pool_acquire :
    Option NativePool → ℤ → Timespec → List (Wake Conn) → Option (Acquired Conn)
pool_acquire none timeout_ms now wakes = none
pool_acquire (some p) timeout_ms now wakes = some (acquire p.free_list timeout_ms now wakes)

-- `native_pool_free_result_chain(conn)` for the connection at an index.
unfoldable pub drop_chain : List Conn → ℕ → Heap → List ℕ × List Conn × Heap
drop_chain [] i h = ([], [], h)
drop_chain (c ∷ cs) zero h =
    let (cleared, chain, h') = free_result_chain c.chain h in
    (cleared, record c { chain = chain } ∷ cs, h')
drop_chain (c ∷ cs) (suc i) h = let (cleared, cs', h') = drop_chain cs i h in (cleared, c ∷ cs', h')

-- The results cleared, the pool and the heap afterwards.
unfoldable pub pool_release :
    Option NativePool → Option ℕ → Heap → List ℕ × Option NativePool × Heap
unfolding drop_chain
pool_release none conn h = ([], none, h)
pool_release (some p) none h = ([], some p, h)
pool_release (some p) (some i) h =
    let (cleared, cs, h') = drop_chain p.free_list.conns i h in
    (cleared, some (record p { free_list = release (record (p.free_list) { conns = cs }) i }), h')

-- `PQgetResult(conn->pg)` is asked only where the chain is empty.
unfoldable pub poll_result : Option Conn → Option ℕ → Heap → Option ℕ × Option Conn × Heap
unfolding chain_poll
poll_result none get_result h = (none, none, h)
poll_result (some c) get_result h = elim c.pg [
  | none ↦ (none, some c, h)
  | some pg ↦ elim c.chain.head [
    | none ↦ (get_result, some c, h)
    | some p ↦
        let (r, chain, h') = chain_poll c.chain h in (r, some (record c { chain = chain }), h')
  ]
]

-- `PQgetCancel` may return NULL.
unfoldable pub pool_cancel : Option Conn → Bool → List Call
pool_cancel none obtained = []
pool_cancel (some c) obtained = elim c.pg [
  | none ↦ []
  | some pg ↦ elim obtained [ true ↦ cancel ∷ [] | false ↦ [] ]
]
