-- ===== src/Lifecycle/Leaves.antt =====
-- What creating a pool leaves: nothing where it fails, and otherwise its blocks and its running
-- connections.
use dart_db_connector.Base.{
  ℕ, zero, suc, ◌+◌, ◌≡◌, refl, sym, ◌∙◌, subst, ℤ, not, true, false, Option, none, some, List, [],
  ◌∷◌, ◌++◌, arith, length, length-append, ◌⊎◌, inl, inr, Bool-cases, ◌||◌,
}
use dart_db_connector.Heap.{
  Heap, Text, malloc, malloc-cases, free, dup_string, dup_string-Grew, Gave, Grew, owned_all,
}
use dart_db_connector.Handles.{
  Event, opens, closes, Kind, session, mutex, cond, thread, opened, closed,
}
use dart_db_connector.Handles.Tally.{
  Tally, Tally-append, held, held-plus, pool_opens, pool_between, mutex_pair,
}
use dart_db_connector.Lifecycle.{
  Managed, Opened, no_session, unconnected, connected, InitAnswers, init_threads, init_conn,
  dup_all, dup_failed, Owned, Created, PoolAnswers, undo_all, init_all, settle, create_conns,
  create_synced, create,
}
use dart_db_connector.Lifecycle.Gives.{free_all-Gave, AllLive, owned_conns, undo_all-gives}

init_threads-cases :
    (a : InitAnswers) (k : Kind)
    → let (ok, es) = init_threads a in
      ((ok ≡ true) × Tally k 1 0 es) ⊎ ((ok ≡ false) × (opened k es ≡ closed k es))
init_threads-cases a session = ground arith
init_threads-cases a mutex = ground arith
init_threads-cases a cond = ground arith
init_threads-cases a thread = ground arith

session_pair :
    (k : Kind)
    → opened k (opens session ∷ closes session ∷ [])
      ≡ closed k (opens session ∷ closes session ∷ [])
session_pair session = refl
session_pair mutex = refl
session_pair cond = refl
session_pair thread = refl

-- One handle of each kind, or what was taken is given back.
init_conn-cases :
    (a : InitAnswers) (k : Kind)
    → let (ok, es) = init_conn a in
      ((ok ≡ true) × Tally k 1 0 es) ⊎ ((ok ≡ false) × (opened k es ≡ closed k es))
unfolding init_conn
init_conn-cases a k = go a.opening
  where
    go :
        (o : Opened)
        → let (ok, es) = init_conn (record a { opening = o }) in
          ((ok ≡ true) × Tally k 1 0 es) ⊎ ((ok ≡ false) × (opened k es ≡ closed k es))
    go no_session = inr (refl, refl)
    go unconnected = inr (refl, session_pair k)
    go connected = init_threads-cases a k

pub dup_all-Grew :
    (ss : List (Option Text)) (h : Heap) → let (cs, h') = dup_all ss h in Grew (owned_all cs) h h'
unfolding dup_all
dup_all-Grew [] h = omega arith
dup_all-Grew (s ∷ ss) h = omega (arith, dup_string-Grew s h, dup_all-Grew ss (dup_string s h).1)

module _ {C : Type 0} (m : Managed C) where
  open m use {fresh}

  -- Of one kind, after the loop with `left` connections to make.
  abbrev Inited : Kind → ℕ → List C → Heap → Option (List C) × Heap × List Event → Type 0
  Inited k left made h (none, h', es) = Gave 0 h h' × ((n : ℕ) × Tally k n (n + length made) es)
  Inited k left made h (some cs, h', es) =
      (h' ≡ h)
      × AllLive m cs
      × (owned_conns m cs ≡ 0)
      × (length cs ≡ length made + left)
      × Tally k left 0 es

  AllLive-snoc : (cs : List C) (i : ℕ) → AllLive m cs → AllLive m (cs ++ fresh i ∷ [])
  AllLive-snoc [] i a = (m.live-fresh i, tt)
  AllLive-snoc (c ∷ cs) i a = (a.0, AllLive-snoc cs i a.1)

  owned-snoc : (cs : List C) (i : ℕ) → owned_conns m (cs ++ fresh i ∷ []) ≡ owned_conns m cs
  owned-snoc [] i = omega (arith, m.owns-fresh i)
  owned-snoc (c ∷ cs) i = omega (arith, owned-snoc cs i)

  after_one :
      (k : Kind) (left : ℕ) (made : List C) (c : C) (h : Heap) (es : List Event)
      (r : Option (List C) × Heap × List Event)
      → Tally k 1 0 es
      → Inited k left (made ++ c ∷ []) h r
      → Inited k (suc left) made h (r.0, r.1, es ++ r.2)
  after_one k left made c h es (none, h', fs) t (g, (n, u)) =
      let e = length-append made (c ∷ []) in
      (
        g,
        (
          n + 1,
          Tally-append k 1 0 n (n + length (made ++ c ∷ [])) (n + 1) (n + 1 + length made) es fs t u
              (omega arith) (omega (arith, e)),
        ),
      )
  after_one k left made c h es (some cs, h', fs) t (e, a, o, l, u) = (
    e,
    a,
    o,
    omega (arith, l, length-append made (c ∷ [])),
    Tally-append k 1 0 left 0 (suc left) 0 es fs t u (omega arith) refl,
  )

  module _ (left i : ℕ) (answers : ℕ → InitAnswers) (made : List C) (h : Heap) where
    init_all-made :
        (init_conn (answers i)).0 ≡ true
        → let r = init_all m left (i + 1) answers (made ++ fresh i ∷ []) h in
          init_all m (suc left) i answers made h ≡ (r.0, r.1, (init_conn (answers i)).1 ++ r.2)
    unfolding init_all
    init_all-made ok = ground arith

    init_all-stopped :
        (init_conn (answers i)).0 ≡ false
        → let r = undo_all m made h in
          init_all m (suc left) i answers made h ≡ (none, r.0, (init_conn (answers i)).1 ++ r.1)
    unfolding init_all
    init_all-stopped ok = ground arith

  init_all-Inited :
      (left i : ℕ) (answers : ℕ → InitAnswers) (made : List C) (h : Heap) (k : Kind)
      → AllLive m made
      → owned_conns m made ≡ 0
      → Inited k left made h (init_all m left i answers made h)
  init_all-Inited zero i answers made h k a o =
      unfold init_all in (refl, a, o, omega arith, (refl, refl))
  init_all-Inited (suc left) i answers made h k a o =
      let es = (init_conn (answers i)).1 in
      elim (init_conn-cases (answers i) k) [
        | inl (ok, t) ↦
            subst (Inited k (suc left) made h) (sym (init_all-made left i answers made h ok)) (
              after_one k left made (fresh i) h es
                (init_all m left (i + 1) answers (made ++ fresh i ∷ []) h) t
                (init_all-Inited left (i + 1) answers (made ++ fresh i ∷ []) h k
                  (AllLive-snoc made i a) (owned-snoc made i ∙ o)))
        | inr (ok, t) ↦
            let (g, u) = undo_all-gives m k made h a in
            let fs = (undo_all m made h).1 in
            subst (Inited k (suc left) made h) (sym (init_all-stopped left i answers made h ok)) (
              omega (arith, g, o),
              (
                opened k es,
                Tally-append k (opened k es) (closed k es) 0 (length made) (opened k es)
                    (opened k es + length made) es fs (refl, refl) u (omega arith)
                    (omega (arith, t)),
              ),
            )
      ]

  -- `got` blocks were there to be given back on a failure. A creation that fails leaves no block and
  -- no handle behind; one that succeeds leaves two blocks and the copied strings, and `n`
  -- connections that are live, own no block, and hold their handles.
  abbrev pub Leaves : Kind → ℕ → ℕ → Heap → Created C → Type 0
  Leaves k n got h c = elim c.pool [
    | none ↦ Gave got h c.heap × (opened k c.events ≡ closed k c.events)
    | some p ↦
        (c.heap.allocs + h.frees + got ≡ h.allocs + c.heap.frees + 2 + owned_all p.strings)
        × AllLive m p.free_list.conns
        × (owned_conns m p.free_list.conns ≡ 0)
        × (length p.free_list.conns ≡ n)
        × Tally k (held k n) 0 c.events
  ]

  settle-Leaves :
      (copies : List (Option Text)) (n : ℕ) (timeout_ms : ℤ) (h h1 : Heap) (k : Kind)
      (r : Option (List C) × Heap × List Event)
      → Grew 1 h h1
      → Inited k n [] h1 r
      → Leaves k n (1 + owned_all copies) h (settle m copies timeout_ms r)
  unfolding settle free
  settle-Leaves copies n timeout_ms h h1 k (none, h', es) gr (g, (x, t)) =
      let f = free_all-Gave copies (free {0} (some tt) h') in
      (omega (arith, g, gr, f), pool_between k es (omega (arith, t.0, t.1)))
  settle-Leaves copies n timeout_ms h h1 k (some cs, h', es) gr (e, a, o, l, t) =
      let (p, c) = pool_opens k es in
      (
        ground (arith, gr, e),
        a,
        o,
        omega (arith, l),
        (omega (arith, p, t.0, held-plus k n), omega (arith, c, t.1)),
      )

  pub create_conns-Leaves :
      (copies : List (Option Text)) (n : ℕ) (timeout_ms : ℤ) (inits : ℕ → InitAnswers) (h : Heap)
      (k : Kind)
      → Leaves k n (1 + owned_all copies) h (create_conns m copies n timeout_ms inits h)
  unfolding create_conns free
  create_conns-Leaves copies n timeout_ms inits h k = elim (malloc-cases h) [
    | inl (e, g) ↦ rw e (
        settle-Leaves copies n timeout_ms h (malloc h).1 k (init_all m n 0 inits [] (malloc h).1) g
          (init_all-Inited n 0 inits [] (malloc h).1 k tt refl))
    | inr (e, g) ↦
        rw e (omega (arith, g, free_all-Gave copies (malloc h).1), pool_between k [] refl)
  ]

  create_synced-Leaves :
      (sources copies : List (Option Text)) (n : ℕ) (timeout_ms : ℤ) (a : PoolAnswers) (h : Heap)
      (k : Kind)
      → Leaves k n (1 + owned_all copies) h (create_synced m sources copies n timeout_ms a h)
  unfolding create_synced free
  create_synced-Leaves sources copies n timeout_ms a h k =
      let f = free_all-Gave copies h in
      elim (Bool-cases (dup_failed sources copies || not a.mutex_ok)) [
        | inl e ↦ rw e (omega (arith, f), refl)
        | inr e ↦ elim (Bool-cases a.cond_ok) [
          | inr c ↦ rw (e, c) (omega (arith, f), mutex_pair k)
          | inl c ↦ rw (e, c) (create_conns-Leaves copies n timeout_ms a.inits h k)
        ]
      ]

  pub Leaves-after :
      (k : Kind) (n got : ℕ) (h h2 : Heap) (c : Created C)
      → Grew got h h2
      → Leaves k n got h2 c
      → Leaves k n 0 h c
  Leaves-after k n got h h2 c g l = go c.pool l
    where
      go :
          (p : Option (Owned C))
          → Leaves k n got h2 (record c { pool = p })
          → Leaves k n 0 h (record c { pool = p })
      go none (a, b) = (omega (arith, g, a), b)
      go (some p) (a, l, o, q, t) = (omega (arith, g, a), l, o, q, t)

  pub create-Leaves :
      (sources : List (Option Text)) (n : ℕ) (timeout_ms : ℤ) (a : PoolAnswers) (h : Heap)
      (k : Kind)
      → Leaves k n 0 h (create m sources n timeout_ms a h)
  unfolding create
  create-Leaves sources n timeout_ms a h k = elim (malloc-cases h) [
    | inr (e, g) ↦ rw e (omega (arith, g), refl)
    | inl (e, g) ↦
        let h1 = (malloc h).1 in
        let (copies, h2) = dup_all sources h1 in
        let d = dup_all-Grew sources h1 in
        rw e (
          Leaves-after k n (1 + owned_all copies) h h2
            (create_synced m sources copies n timeout_ms a h2) (omega (arith, g, d))
            (create_synced-Leaves sources copies n timeout_ms a h2 k))
  ]
