-- ===== src/Examples/Shared.antt =====
-- The data of the examples: a heap that grants everything, a connection as `init_conn` of
-- packages/dart_db_connector/native/c/src/native_pool.c leaves it, a pool and a chain.
use dart_db_connector.Base.{refl, negsuc, true, false, List, [], ◌∷◌, arith}
use dart_db_connector.Heap.{Heap, Text}
use dart_db_connector.Clock.{Timespec}
use dart_db_connector.Postgres.Chain.{Chain, link, no_chain}
use dart_db_connector.Postgres.Chain.Fifo.{Entry, Holds}
use dart_db_connector.Postgres.Conn.{Conn}
use dart_db_connector.Postgres.Ledger.{IsValid}
use dart_db_connector.Postgres.Lifecycle.{fresh_conn}
use dart_db_connector.Postgres.Pool.{NativePool}

abbrev pub granting : Heap
granting = record { grants = λ n. true; calls = 0; allocs = 0; frees = 0 }

abbrev pub idle : Conn
idle = fresh_conn 0

pub idle-IsValid : IsValid idle
idle-IsValid = record { cleared = λ e. refl; sql_counted = tt; values_counted = tt }

-- Two results, 7 and 8.
abbrev pub two_results : Chain
two_results = link (link no_chain 7) 8

abbrev pub two_entries : List Entry
two_entries = (0, 7) ∷ (1, 8) ∷ []

pub two_results-Holds : Holds two_results two_entries
two_results-Holds = record {
  starts = refl;
  ends = refl;
  linked = (omega arith, refl, (omega arith, refl, omega arith));
}

-- A connection with results that nobody drained.
abbrev pub undrained : Conn
undrained = record idle { in_use = true; chain = two_results }

abbrev pub two_conns : NativePool
two_conns = record {
  conninfo = b'h' ∷ [];
  free_list = record {
    default_acquire_timeout_ms = negsuc 0;
    conns = undrained ∷ fresh_conn 1 ∷ [];
    shutting_down = false;
  };
}

abbrev pub noon : Timespec
noon = record { sec = 43200; nsec = 999_000_000 }

-- `SELECT 1`, shortened, and `BEGIN`.
abbrev pub select : Text
select = b'S' ∷ b'1' ∷ []

abbrev pub begin : Text
begin = b'B' ∷ []
