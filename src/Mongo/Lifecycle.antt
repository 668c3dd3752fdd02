-- ===== src/Mongo/Lifecycle.antt =====
-- `init_conn`, `teardown_conn`, `mongo_pool_create` and `mongo_pool_destroy` of
-- packages/dart_db_connector/native/c/src/mongo_pool.c, by the steps of Lifecycle: a session is a
-- client that is popped from the client pool and pushed back. The URI and the client pool, which
-- libmongoc makes, are a log of their own.
use dart_db_connector.Base.{
  ℕ, ◌+◌, ◌≡◌, refl, ap, ◌∙◌, ℤ, pos_part, is_positive, one_if, Bool, true, false, not, Option,
  none, some, List, [], ◌∷◌, arith, if◌then◌else◌, length, Bool-cases, inl, inr, ◌⊎◌,
}
use dart_db_connector.Heap.{Heap, Text, malloc, malloc-cases, free, Gave, Grew, owned_all}
use dart_db_connector.Handles.{Event, opens, Kind, session, mutex, cond, thread, opened, closed}
use dart_db_connector.Handles.Tally.{Tally, held}
use dart_db_connector.Lifecycle.{
  Managed, PoolAnswers, Owned, Created, failed, create_conns, destroy,
}
use dart_db_connector.Lifecycle.Gives.{AllLive, owned_conns, destroy-gives}
use dart_db_connector.Lifecycle.Leaves.{Leaves, create_conns-Leaves, Leaves-after}
use dart_db_connector.Mongo.Results.{
  chain_blocks, mongo_free_result_chain, mongo_free_result_chain-Gave,
}
use dart_db_connector.Mongo.Slot.{MongoConn, mongo_empty, mongo_pool_free_slot_payload}
use dart_db_connector.Mongo.Slot.Means.{owned_payload, free_copies-Gave}
use dart_db_connector.Mongo.Worker.{no_error}

-- As `init_conn` leaves the connection of an index.
abbrev pub mongo_fresh : ℕ → MongoConn
mongo_fresh index = record {
  client = some index;
  index = index;
  in_use = false;
  slot_filled = false;
  payload = mongo_empty;
  last_result = [];
  last_error = no_error;
  shutdown_requested = false;
}

abbrev pub has_client : Option ℕ → Bool
has_client none = false
has_client (some n) = true

-- The part of `teardown_conn` between the join and the handles.
unfoldable pub mongo_release : MongoConn → Heap → MongoConn × Heap
unfolding mongo_pool_free_slot_payload
mongo_release c h =
    let (c1, h1) = mongo_pool_free_slot_payload c h in
    let h2 = mongo_free_result_chain c1.last_result h1 in
    (record c1 { last_result = []; client = none }, h2)

abbrev pub mongo_owns : MongoConn → ℕ
mongo_owns c = owned_payload c.payload + chain_blocks c.last_result

pub mongo_release-gives : (c : MongoConn) (h : Heap) → Gave (mongo_owns c) h (mongo_release c h).1
unfolding mongo_release
mongo_release-gives c h =
    let h1 = (mongo_pool_free_slot_payload c h).1 in
    omega (arith, free_copies-Gave c.payload h, mongo_free_result_chain-Gave c.last_result h1)

abbrev pub mongo_managed : Managed MongoConn
mongo_managed = record {
  fresh = mongo_fresh;
  live = λ c. has_client c.client;
  ask = λ c. record c { shutdown_requested = true };
  release = mongo_release;
  owns = mongo_owns;
  live-fresh = λ i. refl;
  owns-fresh = λ i. refl;
  live-ask = λ c. refl;
  owns-ask = λ c. refl;
  release-gives = mongo_release-gives;
}

-- What libmongoc makes for a pool.
pub data Object : Type 0 where
  uri client_pool : Object

pub data ObjectEvent : Type 0 where
  makes destroys : Object → ObjectEvent

abbrev same_object : Object → Object → Bool
same_object uri uri = true
same_object client_pool client_pool = true
same_object _ _ = false

abbrev pub made_of : Object → List ObjectEvent → ℕ
made_of o [] = 0
made_of o (makes p ∷ es) = one_if (same_object o p) + made_of o es
made_of o (destroys p ∷ es) = made_of o es

abbrev pub destroyed_of : Object → List ObjectEvent → ℕ
destroyed_of o [] = 0
destroyed_of o (makes p ∷ es) = destroyed_of o es
destroyed_of o (destroys p ∷ es) = one_if (same_object o p) + destroyed_of o es

-- What a creation comes to, and the log of the objects.
pub record MongoCreated : Type 0 where
  pub created : Created MongoConn
  pub objects : List ObjectEvent

-- A URI that is not NULL, a client pool that is not NULL, and the answers of pthreads.
pub record MongoAnswers : Type 0 where
  pub uri_ok : Bool
  pub clients_ok : Bool
  pub threads : PoolAnswers

-- Both objects are made, and destroyed again where no pool comes of it.
abbrev pub with_objects : Created MongoConn → MongoCreated
with_objects c = record {
  created = c;
  objects = elim c.pool [
    | none ↦ makes uri ∷ makes client_pool ∷ destroys client_pool ∷ destroys uri ∷ []
    | some p ↦ makes uri ∷ makes client_pool ∷ []
  ];
}

-- With the client pool made. Where `pthread_cond_init` fails, the mutex stays initialised.
unfoldable pub mongo_create_synced : ℕ → ℤ → PoolAnswers → Heap → Created MongoConn
unfolding free
mongo_create_synced n timeout_ms a h =
    if not a.mutex_ok
    then failed (free {0} (some tt) h) []
    else if not a.cond_ok
    then failed (free {0} (some tt) h) (opens mutex ∷ [])
    else create_conns mongo_managed [] n timeout_ms a.inits h

-- With the URI made.
unfoldable pub mongo_create : ℕ → ℤ → MongoAnswers → Heap → MongoCreated
unfolding malloc free
mongo_create n timeout_ms a h =
    let (ok, h1) = malloc h in
    if not ok
    then record { created = failed h1 []; objects = makes uri ∷ destroys uri ∷ [] }
    else if not a.clients_ok
    then record {
      created = failed (free {0} (some tt) h1) [];
      objects = makes uri ∷ destroys uri ∷ [];
    }
    else with_objects (mongo_create_synced n timeout_ms a.threads h1)

unfoldable pub mongo_pool_create : Option Text → ℤ → ℤ → MongoAnswers → Heap → MongoCreated
mongo_pool_create none max_size timeout_ms a h = record { created = failed h []; objects = [] }
mongo_pool_create (some uri_str) max_size timeout_ms a h =
    if not (is_positive max_size)
    then record { created = failed h []; objects = [] }
    else if not a.uri_ok
    then record { created = failed h []; objects = [] }
    else mongo_create (pos_part max_size) timeout_ms a h

unfoldable pub mongo_pool_destroy :
    Option (Owned MongoConn) → Heap → Heap × List Event × List ObjectEvent
mongo_pool_destroy none h = (h, [], [])
mongo_pool_destroy (some p) h =
    let (h', es) = destroy mongo_managed p h in (h', es, destroys client_pool ∷ destroys uri ∷ [])

-- What a creation leaves of one kind of handle and one object; `cond_ok` is the answer of
-- pthread_cond_init for the pool.
abbrev pub MongoLeaves : Kind → Object → ℕ → Bool → Heap → MongoCreated → Type 0
MongoLeaves k o n cond_ok h c = elim c.created.pool [
  | none ↦
      Gave 0 h c.created.heap
      × (made_of o c.objects ≡ destroyed_of o c.objects)
      × ((opened k c.created.events ≡ closed k c.created.events)
          ⊎ ((k ≡ mutex) × (cond_ok ≡ false) × (c.created.events ≡ opens mutex ∷ [])))
  | some p ↦
      (c.created.heap.allocs + h.frees ≡ h.allocs + c.created.heap.frees + 2 + owned_all p.strings)
      × AllLive mongo_managed p.free_list.conns
      × (owned_conns mongo_managed p.free_list.conns ≡ 0)
      × (length p.free_list.conns ≡ n)
      × Tally k (held k n) 0 c.created.events
      × (made_of o c.objects ≡ 1)
      × (destroyed_of o c.objects ≡ 0)
]

both_made :
    (o : Object)
    → (made_of o (makes uri ∷ makes client_pool ∷ []) ≡ 1)
      × (destroyed_of o (makes uri ∷ makes client_pool ∷ []) ≡ 0)
both_made uri = (refl, refl)
both_made client_pool = (refl, refl)

both_destroyed :
    (o : Object)
    → let es = makes uri ∷ makes client_pool ∷ destroys client_pool ∷ destroys uri ∷ [] in
      made_of o es ≡ destroyed_of o es
both_destroyed uri = refl
both_destroyed client_pool = refl

uri_destroyed :
    (o : Object) → let es = makes uri ∷ destroys uri ∷ [] in made_of o es ≡ destroyed_of o es
uri_destroyed uri = refl
uri_destroyed client_pool = refl

Leaves-MongoLeaves :
    (k : Kind) (o : Object) (n : ℕ) (b : Bool) (h : Heap) (c : Created MongoConn)
    → Leaves mongo_managed k n 0 h c
    → MongoLeaves k o n b h (with_objects c)
Leaves-MongoLeaves k o n b h c l = go c.pool c.heap c.events l
  where
    go :
        (p : Option (Owned MongoConn)) (h' : Heap) (es : List Event)
        → Leaves mongo_managed k n 0 h (record { pool = p; heap = h'; events = es })
        → MongoLeaves k o n b h (with_objects (record { pool = p; heap = h'; events = es }))
    go none h' es (g, e) = (g, both_destroyed o, inl e)
    go (some p) h' es (g, l, w, s, t) =
        (omega (arith, g), l, w, s, t, (both_made o).0, (both_made o).1)

synced-Leaves :
    (k : Kind) (o : Object) (n : ℕ) (timeout_ms : ℤ) (a : MongoAnswers) (h h1 : Heap) (b : Bool)
    → b ≡ a.threads.cond_ok
    → Grew 1 h h1
    → MongoLeaves k o n b h (with_objects (mongo_create_synced n timeout_ms a.threads h1))
unfolding mongo_create_synced free
synced-Leaves k o n timeout_ms a h h1 b q g = elim (Bool-cases a.threads.mutex_ok) [
  | inr e ↦ rw e (omega (arith, g), both_destroyed o, inl refl)
  | inl e ↦ elim (Bool-cases a.threads.cond_ok) [
    | inr f ↦ rw (e, f) (omega (arith, g), both_destroyed o, leaked k (q ∙ f))
    | inl f ↦
        let c = create_conns mongo_managed [] n timeout_ms a.threads.inits h1 in
        rw (e, f)
          (Leaves-MongoLeaves k o n b h c (
            Leaves-after mongo_managed k n 1 h h1 c g
              (create_conns-Leaves mongo_managed [] n timeout_ms a.threads.inits h1 k)))
  ]
]
  where
    leaked :
        (k : Kind)
        → b ≡ false
        → (opened k (opens mutex ∷ []) ≡ 0)
          ⊎ ((k ≡ mutex) × (b ≡ false) × (opens mutex ∷ [] ≡ opens mutex ∷ []))
    leaked session f = inl refl
    leaked mutex f = inr (refl, f, refl)
    leaked cond f = inl refl
    leaked thread f = inl refl

-- Of every kind of handle and of both objects of libmongoc, whatever the arguments and wherever
-- malloc, libmongoc or pthreads fail: creating a MongoDB pool that fails leaves no block, no object
-- and no handle behind, but for the pool's mutex where its condition variable was refused. One that
-- succeeds leaves the two blocks of the pool, its URI and its client pool, and as many connections
-- as asked for, which have their client, own no block, and hold one client and one thread each, and
-- one mutex and one condition variable each beside the pool's own.
pub mongo_pool_create-Leaves :
    (uri_str : Option Text) (max_size timeout_ms : ℤ) (a : MongoAnswers) (h : Heap) (k : Kind)
    (o : Object)
    → MongoLeaves k o
        (pos_part max_size)
        a.threads.cond_ok
        h
        (mongo_pool_create uri_str max_size timeout_ms a h)
unfolding mongo_pool_create mongo_create free
mongo_pool_create-Leaves none max_size timeout_ms a h k o = (omega arith, refl, inl refl)
mongo_pool_create-Leaves (some s) max_size timeout_ms a h k o =
    elim (Bool-cases (is_positive max_size)) [
      | inr p ↦ rw p (omega arith, refl, inl refl)
      | inl p ↦ elim (Bool-cases a.uri_ok) [
        | inr u ↦ rw (p, u) (omega arith, refl, inl refl)
        | inl u ↦ elim (malloc-cases h) [
          | inr (e, g) ↦ rw (p, u, e) (omega (arith, g), uri_destroyed o, inl refl)
          | inl (e, g) ↦ elim (Bool-cases a.clients_ok) [
            | inr c ↦ rw (p, u, e, c) (omega (arith, g), uri_destroyed o, inl refl)
            | inl c ↦
                rw (p, u, e, c)
                  (synced-Leaves k o (pos_part max_size) timeout_ms a h (malloc h).1
                    a.threads.cond_ok refl g)
          ]
        ]
      ]
    ]

-- Destroying a MongoDB pool whose connections have their clients gives back the blocks that their
-- slots and results own and the pool's two blocks, closes every handle of the connections and of
-- the pool once, opening none, and destroys the client pool and the URI once.
pub mongo_pool_destroy-gives :
    (p : Owned MongoConn) (h : Heap) (k : Kind) (o : Object)
    → AllLive mongo_managed p.free_list.conns
    → p.strings ≡ []
    → let (h', es, os) = mongo_pool_destroy (some p) h in
      Gave (owned_conns mongo_managed p.free_list.conns + 2) h h'
      × Tally k 0 (held k (length p.free_list.conns)) es
      × (destroyed_of o os ≡ 1)
      × (made_of o os ≡ 0)
unfolding mongo_pool_destroy
mongo_pool_destroy-gives p h k o a s =
    let (g, t) = destroy-gives mongo_managed p h k a in
    (omega (arith, g, ap owned_all s), t, once o, none_made o)
  where
    once : (o : Object) → destroyed_of o (destroys client_pool ∷ destroys uri ∷ []) ≡ 1
    once uri = refl
    once client_pool = refl

    none_made : (o : Object) → made_of o (destroys client_pool ∷ destroys uri ∷ []) ≡ 0
    none_made uri = refl
    none_made client_pool = refl
