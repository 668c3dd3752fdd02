-- ===== src/Examples/Lists.antt =====
-- The free list, the clock, the joins and the chain at concrete inputs.
use dart_db_connector.Base.{
  one_if, ℕ, zero, suc, ◌+◌, ◌*◌, ◌≡◌, ◌≢◌, ◌≤◌, ◌<◌, ◌⊎◌, get_elem?, refl, pos, true, false, some,
  List, [], ◌∷◌, ◌++◌, arith,
}
use dart_db_connector.Heap.{Grew}
use dart_db_connector.Clock.{Timespec, deadline_from_ms, next_select_tv, ms_until}
use dart_db_connector.Clock.Bounds.{to_ns, next_select_tv_bounds}
use dart_db_connector.Sql.{pg_write}
use dart_db_connector.Sql.Join.{split, split-joined}
use dart_db_connector.FreeList.{Pool, Wake, scan, acquire}
use dart_db_connector.FreeList.Scan.{is_out}
use dart_db_connector.FreeList.Wait.{Explains, acquire-Explains}
use dart_db_connector.FreeList.Lending.{Lent, Exact, Reach, start, next, takes, count, Reach-once}
use dart_db_connector.Postgres.Chain.{Chain, chain_append}
use dart_db_connector.Postgres.Chain.Fifo.{Holds, chain_append-fifo}
use dart_db_connector.Postgres.Conn.{Conn}
use dart_db_connector.Postgres.Lifecycle.{fresh_conn}
use dart_db_connector.Postgres.Pool.{NativePool, conn_lendable, pool_release}
use dart_db_connector.Postgres.Pool.Polling.{poll_times, poll_times-all, pool_release-drops}
use dart_db_connector.Examples.Shared.{
  granting, two_results, two_entries, two_results-Holds, undrained, two_conns, noon, select, begin,
}

abbrev half_past : Timespec
half_past = record { sec = 43201; nsec = 499_000_000 }

next_select_tv_bounds_example :
    (500_000 < 1_000_000)
    × (0 < 500_000)
    × (500_000 ≤ 1_000_000)
    × (to_ns noon + 500_000 * 1000 < to_ns half_past + 1_000_000)
unfolding next_select_tv ms_until
next_select_tv_bounds_example =
    next_select_tv_bounds half_past noon (record { sec = 0; usec = 500_000 }) (omega arith)
      (omega arith) half_past_tv
  where
    half_past_tv : next_select_tv (some half_past) noon ≡ some (record { sec = 0; usec = 500_000 })
    half_past_tv = refl

split-joined_example : split [] (pg_write 0 [] (begin ∷ select ∷ [])) ≡ begin ∷ select ∷ []
split-joined_example =
    split-joined begin (select ∷ [])
      ((λ e. ground arith, tt), ((λ e. ground arith, (λ e. ground arith, tt)), tt))

-- A pool of two, both free.
abbrev both_free : List Conn
both_free = fresh_conn 0 ∷ fresh_conn 1 ∷ []

abbrev first_out : List Conn
first_out = record (fresh_conn 0) { in_use = true } ∷ fresh_conn 1 ∷ []

abbrev both_out : List Conn
both_out = record (fresh_conn 0) { in_use = true } ∷ record (fresh_conn 1) { in_use = true } ∷ []

abbrev nothing_lent : Lent Conn
nothing_lent = record { conns = both_free; held = [] }

nothing_lent-Exact : Exact nothing_lent
nothing_lent-Exact = record { once = once; size = refl }
  where
    once : (i : ℕ) → count i nothing_lent.held ≡ one_if (is_out both_free i)
    once zero = refl
    once (suc zero) = refl
    once (suc (suc i)) = refl

first_taken : Reach nothing_lent (record { conns = first_out; held = 0 ∷ [] })
unfolding scan
first_taken = next start (takes 0 first_out refl)

Reach-once_example : (count 0 (0 ∷ []) ≤ 1) × (count 0 (0 ∷ []) ≡ one_if (is_out first_out 0))
Reach-once_example = Reach-once nothing_lent-Exact first_taken 0

abbrev closed_pool : Pool Conn
closed_pool = record { default_acquire_timeout_ms = pos 0; conns = both_out; shutting_down = true }

-- Both connections are out when the call arrives; it sleeps, and the pool is shut down.
abbrev open_pool : Pool Conn
open_pool = record closed_pool { shutting_down = false }

abbrev woken : Wake Conn
woken = record { signalled = true; at = noon; seen = closed_pool }

acquire-Explains_example :
    Explains
      (pos 250)
      (some (deadline_from_ms noon 250))
      open_pool
      (woken ∷ [])
      (acquire open_pool (pos 250) noon (woken ∷ []))
acquire-Explains_example = acquire-Explains open_pool (pos 250) noon (woken ∷ [])

chain_append-fifo_example :
    let (ok, c, h) = chain_append two_results 9 granting in
    ((ok ≡ true) × Holds c (two_entries ++ (2, 9) ∷ []) × Grew 1 granting h)
    ⊎ ((ok ≡ false) × (c ≡ two_results) × Grew 0 granting h)
chain_append-fifo_example = chain_append-fifo two_results 9 granting two_entries two_results-Holds

poll_times-all_example :
    let (got, c, h) = poll_times 2 undrained granting in
    (got ≡ some 7 ∷ some 8 ∷ [])
    × ((d : _) × (c ≡ some (record undrained { chain = d })) × Holds d [])
    × (h.frees ≡ 2)
    × (h.allocs ≡ 0)
poll_times-all_example = poll_times-all two_entries undrained granting 0 refl two_results-Holds

pool_release-drops_example :
    let (cleared, q, h) = pool_release (some two_conns) (some 0) granting in
    (cleared ≡ 7 ∷ 8 ∷ [])
    × (h.frees ≡ 2)
    × (h.allocs ≡ 0)
    × ((p : NativePool) × (q ≡ some p)
        × (is_out p.free_list.conns 0 ≡ false)
        × ((d : Chain) × (get_elem? p.free_list.conns 0
              ≡ some (record undrained { chain = d; in_use = false }))
            × Holds d [])
        × ((j : ℕ) → j ≢ 0 → get_elem? p.free_list.conns j ≡ get_elem? two_conns.free_list.conns j))
pool_release-drops_example =
    pool_release-drops two_conns 0 granting undrained two_entries refl two_results-Holds
