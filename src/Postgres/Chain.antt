-- ===== src/Postgres/Chain.antt =====
-- The multi-read result chain of packages/dart_db_connector/native/c/src/native_pool.c: a linked
-- list of heap nodes behind a head and a tail pointer (`pg_result_node_t` and the `chain_` fields
-- of native_pool_internal.h). A PGresult is a number, the name of libpq's object.
pub mod Fifo
use dart_db_connector.Base.{
  ℕ, zero, suc, Bool, true, false, Option, none, some, List, [], ◌∷◌, arith, if◌then◌else◌, ◌==◌,
}
use dart_db_connector.Heap.{Heap, malloc, free}

pub record Node : Type 0 where
  pub result : ℕ
  pub next : Option ℕ

-- The nodes lie at addresses; `fresh` is above every address handed out so far.
pub record Chain : Type 0 where
  pub head : Option ℕ
  pub tail : Option ℕ
  pub cell : ℕ → Option Node
  pub fresh : ℕ

abbrev pub update : (ℕ → Option Node) → ℕ → Option Node → ℕ → Option Node
update f a v b = if a == b then v else f b

abbrev pub node : ℕ → Option ℕ → Node
node r n = record { result = r; next = n }

-- `p->next = q`
abbrev pub with_next : Option Node → ℕ → Option Node
with_next none q = none
with_next (some n) q = some (node n.result (some q))

abbrev pub no_chain : Chain
no_chain = record { head = none; tail = none; cell = λ a. none; fresh = 0 }

-- The new node, and the old tail's pointer to it where there is a tail.
abbrev pub written : (ℕ → Option Node) → ℕ → ℕ → Option ℕ → ℕ → Option Node
written cell fresh r none = update cell fresh (some (node r none))
written cell fresh r (some t) =
    update (update cell fresh (some (node r none))) t (with_next (cell t) fresh)

abbrev pub link : Chain → ℕ → Chain
link c r = record {
  head = elim c.tail [ none ↦ some c.fresh | some t ↦ c.head ];
  tail = some c.fresh;
  cell = written c.cell c.fresh r c.tail;
  fresh = suc c.fresh;
}

-- `native_pool_chain_append`: false where malloc fails.
unfoldable pub chain_append : Chain → ℕ → Heap → Bool × Chain × Heap
unfolding malloc
chain_append c r h = let (ok, h') = malloc h in if ok then (true, link c r, h') else (false, c, h')

-- The `while (node != NULL)` loop of `native_pool_free_result_chain`: the results that it hands to
-- PQclear, in order, and the heap after `free` of each node.
unfoldable pub free_nodes :
    ℕ → Option ℕ → (ℕ → Option Node) → Heap → List ℕ × (ℕ → Option Node) × Heap
unfolding free
free_nodes zero p cell h = ([], cell, h)
free_nodes (suc fuel) none cell h = ([], cell, h)
free_nodes (suc fuel) (some a) cell h = elim (cell a) [
  | none ↦ ([], cell, h)
  | some n ↦
      let (cleared, cell', h') = free_nodes fuel n.next (update cell a none) (free (some n) h) in
      (n.result ∷ cleared, cell', h')
]

unfoldable pub free_result_chain : Chain → Heap → List ℕ × Chain × Heap
unfolding free_nodes
free_result_chain c h =
    let (cleared, cell', h') = free_nodes c.fresh c.head c.cell h in
    (cleared, record c { head = none; tail = none; cell = cell' }, h')

-- The chain part of `poll_result`: `none` where the chain is empty.
unfoldable pub chain_poll : Chain → Heap → Option ℕ × Chain × Heap
unfolding free
chain_poll c h = elim c.head [
  | none ↦ (none, c, h)
  | some p ↦ elim (c.cell p) [
    | none ↦ (none, c, h)
    | some n ↦ (
      some n.result,
      record c {
        head = n.next;
        tail = elim n.next [ none ↦ none | some q ↦ c.tail ];
        cell = update c.cell p none;
      },
      free (some n) h,
    )
  ]
]
