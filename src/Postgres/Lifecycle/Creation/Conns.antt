-- ===== src/Postgres/Lifecycle/Creation/Conns.antt =====
-- The loop over `init_conn` in `pool_create` of
-- packages/dart_db_connector/native/c/src/native_pool.c, and what the pool itself holds.
use dart_db_connector.Handles.Tally.{Tally, Tally-append, held}
use dart_db_connector.Heap.{Gave}
use mathlib.Core.Path.{subst}
use dart_db_connector.Base.{
  ℕ, zero, suc, ◌+◌, ◌≡◌, refl, sym, true, false, Option, none, some, List, [], ◌∷◌, ◌++◌, arith,
  length, length-append, inl, inr, ◌⊎◌,
}
use dart_db_connector.Heap.{Heap}
use dart_db_connector.Handles.{Event, Kind, session, mutex, cond, thread, opened, closed}
use dart_db_connector.Postgres.Conn.{Conn}
use dart_db_connector.Postgres.Pool.{NativePool}
use dart_db_connector.Postgres.Lifecycle.{
  InitAnswers, fresh_conn, init_conn, teardown_all, ask_all, init_all,
}
use dart_db_connector.Postgres.Lifecycle.Balance.{
  Runs, blocks, AllRun, AllRun-append, ask_all-AllRun, length-ask_all, teardown_all-gives,
}

pub fresh-Runs : (i : ℕ) → (r : Runs (fresh_conn i)) × (blocks r ≡ 0)
fresh-Runs i = (
  record {
    has_session = (i, refl);
    valid = record { cleared = λ e. refl; sql_counted = tt; values_counted = tt };
    entries = [];
    holds = record { starts = refl; ends = refl; linked = omega arith };
  },
  refl,
)

-- `init_conn` makes a running connection that owns no block and holds one handle of each kind, or
-- gives back what it took.
pub init_conn-cases :
    (a : InitAnswers) (i : ℕ) (k : Kind)
    → let (ok, c, es) = init_conn a i in
      ((ok ≡ true) × (c ≡ fresh_conn i) × Tally k 1 0 es)
      ⊎ ((ok ≡ false) × (opened k es ≡ closed k es))
unfolding init_conn
init_conn-cases a i session = ground arith
init_conn-cases a i mutex = ground arith
init_conn-cases a i cond = ground arith
init_conn-cases a i thread = ground arith

-- Of one kind: as many as `n` connections hold.
abbrev pub Inited : Kind → ℕ → List Conn → Heap → Option (List Conn) × Heap × List Event → Type 0
Inited k left made h (none, h', es) = Gave 0 h h' × (n : ℕ) × Tally k n (n + length made) es
Inited k left made h (some cs, h', es) =
    (h' ≡ h) × AllRun cs 0 × (length cs ≡ length made + left) × Tally k left 0 es

pub after_one :
    (k : Kind) (left : ℕ) (made : List Conn) (h : Heap) (c : Conn) (es : List Event)
    (r : Option (List Conn) × Heap × List Event)
    → Tally k 1 0 es
    → Inited k left (made ++ c ∷ []) h r
    → Inited k (suc left) made h (r.0, r.1, es ++ r.2)
after_one k left made h c es (none, h', fs) t (g, n, u) = (
  g,
  n + 1,
  Tally-append k 1 0 n (n + length (made ++ c ∷ [])) (n + 1) (n + 1 + length made) es fs t u
      (omega arith) (omega (arith, length-append made (c ∷ []))),
)
after_one k left made h c es (some cs, h', fs) t (e, a, l, u) = (
  e,
  a,
  omega (arith, l, length-append made (c ∷ [])),
  Tally-append k 1 0 left 0 (suc left) 0 es fs t u (omega arith) refl,
)

module _ (left i : ℕ) (answers : ℕ → InitAnswers) (made : List Conn) (h : Heap) where
  init_all-made :
      (init_conn (answers i) i).0 ≡ true
      → (init_conn (answers i) i).1 ≡ fresh_conn i
      → let r = init_all left (i + 1) answers (made ++ fresh_conn i ∷ []) h in
        init_all (suc left) i answers made h ≡ (r.0, r.1, (init_conn (answers i) i).2 ++ r.2)
  unfolding init_all
  init_all-made ok c = ground arith

  init_all-stopped :
      (init_conn (answers i) i).0 ≡ false
      → let r = teardown_all (ask_all made) h in
        init_all (suc left) i answers made h ≡ (none, r.0, (init_conn (answers i) i).2 ++ r.1)
  unfolding init_all
  init_all-stopped ok = ground arith

pub init_all-Inited :
    (left i : ℕ) (answers : ℕ → InitAnswers) (made : List Conn) (h : Heap) (k : Kind)
    → AllRun made 0
    → Inited k left made h (init_all left i answers made h)
unfolding init_all fresh-Runs
init_all-Inited zero i answers made h k a = (refl, a, omega arith, (refl, refl))
init_all-Inited (suc left) i answers made h k a = elim (init_conn-cases (answers i) i k) [
  | inl (ok, c, t) ↦
      let all =
        subst (AllRun _) (fresh-Runs i).1
          (AllRun-append made (fresh_conn i) 0 (fresh-Runs i).0 a) in
      subst (Inited k (suc left) made h) (sym (init_all-made left i answers made h ok c)) (
        after_one k left made h (fresh_conn i) (init_conn (answers i) i).2 _ t
          (init_all-Inited left (i + 1) answers (made ++ fresh_conn i ∷ []) h k all))
  | inr (ok, t) ↦
      let (g, u) = teardown_all-gives (ask_all made) 0 h k (ask_all-AllRun made 0 a) in
      let es = (init_conn (answers i) i).2 in
      let fs = (teardown_all (ask_all made) h).1 in
      subst (Inited k (suc left) made h) (sym (init_all-stopped left i answers made h ok)) (
        g,
        opened k es,
        Tally-append k (opened k es) (closed k es) 0 (length (ask_all made)) (opened k es)
            (opened k es + length made) es fs (refl, refl) u (omega arith)
            (omega (arith, t, length-ask_all made)),
      )
]

-- `got` blocks were there to be given back on a failure, of the three of a pool. A creation that
-- fails leaves no block and no handle behind; one that succeeds leaves the blocks of the pool, and
-- `n` connections that run, own no block of their own, and hold their handles.
abbrev pub Leaves : Kind → ℕ → ℕ → Heap → Option NativePool → Heap → List Event → Type 0
Leaves k n got h none h' es = Gave got h h' × (opened k es ≡ closed k es)
Leaves k n got h (some p) h' es =
    (h'.allocs + h.frees + got ≡ h.allocs + h'.frees + 3)
    × AllRun p.free_list.conns 0
    × (length p.free_list.conns ≡ n)
    × Tally k (held k n) 0 es
